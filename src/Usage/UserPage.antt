-- ===== src/Usage/UserPage.antt =====
-- The state of frontend/src/pages/UsagePage.tsx and its `refresh`, up to its `await` and behind it. The
-- panel of filters and the names of the tokens are not part of this state. `read` is `new Date` with
-- the getters of the browser's zone.
pub mod Handlers
pub mod Laws
use revlm.Base.{
  ℕ, Bool, true, false, not, ◌&&◌, Option, none, some, List, [], ◌∷◌, ◌++◌, ltb, ◌==◌,
  if◌then◌else◌, or_else, is_some, length, Text, codes, is_empty, trim,
}
use revlm.Api.{ApiResponse, Outcome, loaded, failed, Reply, settle, or_text, non_empty}
use revlm.Usage.AdminQuery.{positive, join_parts, index_part}
use revlm.Usage.Labels.{Moment, format_local_date}

-- A window of the answer: the page reads its beginning.
pub record Window (W : Type 0) : Type 0 where
  pub since : Text
  pub rest : W

pub record EventsPage (E : Type 0) : Type 0 where
  pub events : List E
  pub next_before_id : Option ℕ

pub record Page (W E D : Type 0) : Type 0 where
  pub found : Option (Window W)
  pub events : List E
  pub loading : Bool
  pub err : Text
  pub start : Text
  pub end : Text
  pub all_time : Bool
  pub limit : ℕ
  pub filter_key : Text
  pub filter_model : Text
  pub next_before_id : Option ℕ
  pub before_stack : List ℕ
  pub expanded_id : Option ℕ
  pub details : List (ℕ × D)
  pub detail_loading_id : Option ℕ

pub record Override : Type 0 where
  pub start : Option Text
  pub end : Option Text
  pub all_time : Option Bool
  pub filter_key : Option Text
  pub filter_model : Option Text

abbrev pub no_override : Override
no_override = record {
  start = none;
  end = none;
  all_time = none;
  filter_key = none;
  filter_model = none;
}

-- A call of `refresh`.
pub record Refresh : Type 0 where
  pub current_before_id : Option ℕ
  pub override : Override

-- The arguments of `getUsageWindows` and `getUsageEvents`, and the locals that `refresh` uses once
-- they have answered.
pub record Sent : Type 0 where
  pub start_value : Text
  pub end_value : Text
  pub all_time_active : Bool
  pub window_start : Option Text
  pub window_end : Option Text
  pub limit : ℕ
  pub before_id : Option ℕ
  pub start : Option Text
  pub end : Option Text
  pub index : Option Text
  pub q_key : Option Text
  pub q_model : Option Text

-- What `Promise.all` comes to, and the body of its two answers.
pub data Answers (W E : Type 0) : Type 0 where
  both : ApiResponse (List (Window W)) → ApiResponse (EventsPage E) → Answers W E
  error : Text → Answers W E
  thrown : Answers W E

abbrev pub load_failed : Text
load_failed = codes "加载失败"

abbrev pub no_text : Text
no_text = []

-- `xs?.[0] ?? null`
abbrev pub first {ℓ} : {A : Type ℓ} → Option (List A) → Option A
first none = none
first (some []) = none
first (some (x ∷ xs)) = some x

abbrev events_of : {E : Type 0} → Option (EventsPage E) → List E
events_of none = []
events_of (some d) = d.events

abbrev next_of : {E : Type 0} → Option (EventsPage E) → Option ℕ
next_of none = none
next_of (some d) = d.next_before_id

module _ {W E D : Type 0} where
  unfoldable pub initial : Text → Page W E D
  initial today = record {
    found = none;
    events = [];
    loading = true;
    err = [];
    start = today;
    end = today;
    all_time = false;
    limit = 50;
    filter_key = [];
    filter_model = [];
    next_before_id = none;
    before_stack = [];
    expanded_id = none;
    details = [];
    detail_loading_id = none;
  }

  unfoldable can_prev : Page W E D → Bool
  can_prev p = ltb 0 (length p.before_stack)

  unfoldable can_next : Page W E D → Bool
  can_next p = is_some (positive p.next_before_id) && (length p.events == p.limit)

  -- `refresh` up to its `await`.
  unfoldable pub request : Page W E D → Refresh → Sent
  request p r =
      let start_value = trim (or_else r.override.start p.start) in
      let end_value = trim (or_else r.override.end p.end) in
      let all_time_active =
        or_else r.override.all_time p.all_time && is_empty start_value && is_empty end_value in
      let q_key = trim (or_else r.override.filter_key p.filter_key) in
      let q_model = trim (or_else r.override.filter_model p.filter_model) in
      record {
        start_value = start_value;
        end_value = end_value;
        all_time_active = all_time_active;
        window_start = non_empty start_value;
        window_end = non_empty end_value;
        limit = p.limit;
        before_id = r.current_before_id;
        start = if all_time_active then none else non_empty start_value;
        end = if all_time_active then none else non_empty end_value;
        index = join_parts (
            index_part (not (is_empty q_key)) "key" ++ index_part (not (is_empty q_model)) "model");
        q_key = non_empty q_key;
        q_model = non_empty q_model;
      }

  abbrev pub begin_load : Page W E D → Page W E D
  begin_load p = record p { err = no_text; loading = true }

  -- The empty bounds take the day on which the window begins, `day0`.
  abbrev pub fill_bounds : Sent → Text → Page W E D → Page W E D
  fill_bounds sent day0 p = record p {
    start = if is_empty sent.start_value && not (is_empty day0) then day0 else p.start;
    end =
        if is_empty sent.end_value && not (is_empty (or_text sent.start_value day0))
        then or_text sent.start_value day0
        else p.end;
  }

  abbrev pub fill_from : (Text → Option Moment) → Sent → Option (Window W) → Page W E D → Page W E D
  fill_from read sent none p = p
  fill_from read sent (some w) p =
      if sent.all_time_active then p else fill_bounds sent (format_local_date read w.since) p

  abbrev pub fail : Text → Page W E D → Page W E D
  fail message p = record p {
    err = message;
    found = none;
    events = [];
    next_before_id = none;
    loading = false;
  }

  abbrev pub absorb :
      (Text → Option Moment)
      → Sent
      → ApiResponse (List (Window W))
      → ApiResponse (EventsPage E)
      → Page W E D
      → Page W E D
  absorb read sent w e p = fill_from read sent (first w.body) (record p {
    found = first w.body;
    events = events_of e.body;
    next_before_id = next_of e.body;
    loading = false;
  })

  -- The rest of `refresh`, once the answers to `sent` are there.
  unfoldable pub receive : (Text → Option Moment) → Sent → Answers W E → Page W E D → Page W E D
  receive read sent (both w e) p =
      if not w.success
      then fail (or_text (or_else w.message []) load_failed) p
      else if not e.success
      then fail (or_text (or_else e.message []) load_failed) p
      else absorb read sent w e p
  receive read sent (error message) p = fail message p
  receive read sent thrown p = fail load_failed p
