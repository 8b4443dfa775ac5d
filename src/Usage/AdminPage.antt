-- ===== src/Usage/AdminPage.antt =====
-- The state of frontend/src/pages/admin/UsageAdminPage.tsx and its `refresh`. A query in flight keeps
-- what it was sent with, so an answer is one step and its request another.
pub mod Handlers
pub mod Steps
pub mod Invariant
pub mod Reachable
pub mod Laws
use revlm.Base.{
  ℕ, Bool, true, false, Option, none, some, List, [], if◌then◌else◌, Text, codes, is_empty,
}
use revlm.Api.{Reply, Outcome, loaded, failed, settle, or_text}
use revlm.Usage.AdminQuery.{
  QueryState, RefreshOverride, no_override, CursorOverride, no_cursor, PageQuery, positive, is_set,
  or_option, build_admin_usage_page_params,
}

-- `AdminUsagePage`, as far as the page's state depends on it.
pub record UsageData (W U E : Type 0) : Type 0 where
  pub start : Text
  pub end : Text
  pub window : Option W
  pub top_users : Option (List U)
  pub events : List E
  pub next_before_id : Option ℕ
  pub prev_after_id : Option ℕ

pub record Page (W U E D : Type 0) : Type 0 where
  pub query : QueryState
  pub found : Option (UsageData W U E)
  pub loading : Bool
  pub err : Text
  pub expanded_id : Option ℕ
  pub details : List (ℕ × D)
  pub detail_loading_id : Option ℕ

-- The arguments of `refresh`.
pub record RefreshOptions : Type 0 where
  pub keep_cursor : Bool
  pub override : RefreshOverride
  pub cursor : CursorOverride

abbrev pub plain : RefreshOptions
plain = record { keep_cursor = false; override = no_override; cursor = no_cursor }

abbrev pub load_failed : Text
load_failed = codes "加载失败"

abbrev pub no_text : Text
no_text = []

abbrev pub initial_query : QueryState
initial_query = record {
  start = [];
  end = [];
  all_time = false;
  limit = 50;
  before_id = none;
  after_id = none;
  filter_user = [];
  filter_user_id = none;
  filter_channel = [];
  filter_channel_id = none;
  filter_model = [];
  filter_model_exact = none;
}

module _ {W U E : Type 0} where
  -- The window and the ranking of the page before, where the answer leaves them out.
  unfoldable pub merge : Option Bool → Option (UsageData W U E) → UsageData W U E → UsageData W U E
  merge (some false) none next = record next { top_users = or_option next.top_users (some []) }
  merge (some false) (some before) next = record next {
    window = or_option next.window before.window;
    top_users = or_option next.top_users (or_option before.top_users (some []));
  }
  merge _ before next = next

  -- Empty bounds take those of the answer.
  abbrev pub fill_bounds : PageQuery → UsageData W U E → QueryState → QueryState
  fill_bounds sent next q = if sent.all_time_active then q else record q {
    start = if is_empty sent.start_value then next.start else q.start;
    end = if is_empty sent.end_value then next.end else q.end;
  }

  abbrev pub prev_after_of : Option (UsageData W U E) → Option ℕ
  prev_after_of none = none
  prev_after_of (some d) = positive d.prev_after_id

  abbrev pub next_before_of : Option (UsageData W U E) → Option ℕ
  next_before_of none = none
  next_before_of (some d) = positive d.next_before_id

module _ {W U E D : Type 0} where
  abbrev pub initial : Page W U E D
  initial = record {
    query = initial_query;
    found = none;
    loading = true;
    err = [];
    expanded_id = none;
    details = [];
    detail_loading_id = none;
  }

  -- The query that a call of `refresh` sends.
  unfoldable pub request : Page W U E D → RefreshOptions → PageQuery
  request p o = build_admin_usage_page_params p.query o.override o.keep_cursor o.cursor

  -- The setters in front of its `await`.
  abbrev pub begin_load : Page W U E D → Page W U E D
  begin_load p = record p { err = no_text; loading = true }

  abbrev pub absorb : PageQuery → Outcome (UsageData W U E) → Page W U E D → Page W U E D
  absorb sent (loaded none) p = record p { found = none; loading = false }
  absorb sent (loaded (some next)) p = record p {
    found = some (merge sent.params.summary p.found next);
    query = fill_bounds sent next p.query;
    loading = false;
  }
  absorb sent (failed message) p = record p { err = message; found = none; loading = false }

  -- The rest of `refresh`, once the answer to `sent` is there.
  unfoldable pub receive : PageQuery → Reply (UsageData W U E) → Page W U E D → Page W U E D
  unfolding merge
  receive sent reply p = absorb sent (settle load_failed reply) p
