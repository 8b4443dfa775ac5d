-- ===== src/Tokens/Usage.antt =====
-- The dialog of a token's usage in frontend/src/pages/TokensPage.tsx, as a transition system: a query
-- and its answer are two steps, and answers come in any order. `read` is `new Date` with the getters of
-- the browser's zone.
pub mod Laws
use revlm.Base.{
  ℕ, ◌≡◌, Bool, true, false, not, ◌&&◌, Option, none, some, List, [], ◌∷◌, ◌++◌, if◌then◌else◌,
  or_else, Text, codes, is_empty, trim,
}
use revlm.Api.{Reply, Outcome, loaded, failed, settle, or_text}
use revlm.Api.Tokens.{UserToken}
use revlm.Usage.Labels.{Moment, format_local_date}
use revlm.Usage.UserPage.{Window, first}

-- A query that waits for its answer: the arguments of `getUsageWindows`.
pub record Asked : Type 0 where
  pub token_id : ℕ
  pub start_value : Text
  pub end_value : Text

pub record Override : Type 0 where
  pub start : Option Text
  pub end : Option Text

abbrev pub no_override : Override
no_override = record { start = none; end = none }

abbrev pub empty_range : Override
empty_range = record { start = some []; end = some [] }

abbrev pub load_failed : Text
load_failed = codes "加载失败"

pub record Dialog (W : Type 0) : Type 0 where
  pub token : Option UserToken
  pub found : Option (Window W)
  pub start : Text
  pub end : Text
  pub loading : Bool
  pub err : Text
  pub sent : List Asked

module _ {W : Type 0} where
  abbrev pub initial : Dialog W
  initial = record {
    token = none;
    found = none;
    start = [];
    end = [];
    loading = false;
    err = [];
    sent = [];
  }

  -- `refreshUsage` up to its `await`.
  unfoldable pub refresh_usage : ℕ → Override → Dialog W → Dialog W
  refresh_usage token_id override s = record s {
    err = [];
    loading = true;
    sent =
        s.sent
        ++ record {
          token_id = token_id;
          start_value = trim (or_else override.start s.start);
          end_value = trim (or_else override.end s.end);
        }
          ∷ [];
  }

  unfoldable pub open_token_usage_modal : UserToken → Dialog W → Dialog W
  unfolding refresh_usage
  open_token_usage_modal t s =
      refresh_usage t.id empty_range
        (record s { token = some t; found = none; start = []; end = []; err = [] })

  unfoldable pub on_hidden : Dialog W → Dialog W
  on_hidden s = record s {
    token = none;
    found = none;
    start = [];
    end = [];
    loading = false;
    err = [];
  }

  unfoldable pub on_start : Text → Dialog W → Dialog W
  on_start start s = record s { start = start }

  unfoldable pub on_end : Text → Dialog W → Dialog W
  on_end end s = record s { end = end }

  abbrev pub refresh_shown : Option UserToken → Override → Dialog W → Dialog W
  refresh_shown none override s = s
  refresh_shown (some t) override s = refresh_usage t.id override s

  unfoldable pub on_query : Dialog W → Dialog W
  unfolding refresh_usage
  on_query s = refresh_shown s.token no_override s

  unfoldable pub on_reset : Dialog W → Dialog W
  unfolding refresh_usage
  on_reset s = refresh_shown s.token empty_range (record s { start = []; end = [] })

  -- Empty bounds take the day on which the window begins, `day0`.
  abbrev fill_bounds : Asked → Text → Dialog W → Dialog W
  fill_bounds q day0 s = record s {
    start = if is_empty q.start_value && not (is_empty day0) then day0 else s.start;
    end =
        if is_empty q.end_value && not (is_empty (or_text q.start_value day0))
        then or_text q.start_value day0
        else s.end;
  }

  abbrev fill_from : (Text → Option Moment) → Asked → Option (Window W) → Dialog W → Dialog W
  fill_from read q none s = s
  fill_from read q (some w) s = fill_bounds q (format_local_date read w.since) s

  -- The window that an outcome leaves.
  abbrev pub found_in : Outcome (List (Window W)) → Option (Window W)
  found_in (loaded d) = first d
  found_in (failed message) = none

  abbrev pub absorb :
      (Text → Option Moment) → Asked → Outcome (List (Window W)) → Dialog W → Dialog W
  absorb read q (loaded d) s =
      fill_from read q (first d) (record s { found = first d; loading = false })
  absorb read q (failed message) s = record s { err = message; found = none; loading = false }

  -- The rest of `refreshUsage`, once the answer to `q` is there.
  unfoldable pub receive :
      (Text → Option Moment) → Asked → Reply (List (Window W)) → Dialog W → Dialog W
  receive read q reply s = absorb read q (settle load_failed reply) s

  -- What the user does while a dialog is open.
  pub data Act : Dialog W → Dialog W → Type 0 where
    starts : (s : Dialog W) (start : Text) → Act s (on_start start s)
    ends : (s : Dialog W) (end : Text) → Act s (on_end end s)
    queries : (s : Dialog W) → Act s (on_query s)
    resets : (s : Dialog W) → Act s (on_reset s)

  -- The dialog over the whole life of the page: it is opened from the list, which it hides, and closed.
  pub data Reach (read : Text → Option Moment) : Dialog W → Type 0 where
    mount : Reach read initial
    opens :
        {s : Dialog W} (t : UserToken)
        → s.token ≡ none
        → Reach read s
        → Reach read (open_token_usage_modal t s)
    closes : {s : Dialog W} → Reach read s → Reach read (on_hidden s)
    acts : {s t : Dialog W} → Reach read s → Act s t → Reach read t
    hears :
        {s : Dialog W} (before after : List Asked) (q : Asked) (reply : Reply (List (Window W)))
        → Reach read s
        → s.sent ≡ before ++ q ∷ after
        → Reach read (receive read q reply (record s { sent = before ++ after }))
