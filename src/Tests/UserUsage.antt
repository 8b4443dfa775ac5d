-- ===== src/Tests/UserUsage.antt =====
-- The usage page and its labels at concrete inputs.
use revlm.Base.{
  Text, codes, ◌≡◌, refl, ◌∷◌, [], true, false, none, some, ℕ, ◌≢◌, Option, List, to_text,
}
use revlm.Api.{ApiResponse}
use revlm.Dates.Input.{format_date_input_local}
use revlm.Usage.UserPage.{
  Window, EventsPage, Page, Refresh, both, thrown, no_override, request, receive,
}
use revlm.Usage.UserPage.Handlers.{on_prev_page, on_next_page, last}
use revlm.Usage.UserPage.Laws.{sent_by, on_prev_page-on_next_page, Fills, receive-Fills}
use revlm.Usage.Labels.{Moment, format_local_date}

abbrev morning : Moment
morning = record {
  date = record { year = 2024; month = 3; day = 1 };
  hours = 8;
  minutes = 5;
  seconds = 0;
}

-- Every text is read as the same time.
abbrev read : Text → Option Moment
read iso = some morning

abbrev page : Page ℕ ℕ ℕ
page = record {
  found = none;
  events = [];
  loading = false;
  err = [];
  start = [];
  end = [];
  all_time = false;
  limit = 50;
  filter_key = codes "ci";
  filter_model = [];
  next_before_id = some 40;
  before_stack = 90 ∷ [];
  expanded_id = none;
  details = [];
  detail_loading_id = none;
}

on_prev_page-on_next_page_example :
    ((on_next_page page).1 ≡ some (record { current_before_id = some 40; override = no_override }))
    × ((on_prev_page (receive read (sent_by page none) thrown (on_next_page page).0)).0.before_stack
        ≡ 90 ∷ [])
    × ((on_prev_page (receive read (sent_by page none) thrown (on_next_page page).0)).1
        ≡ record { current_before_id = last (90 ∷ []); override = no_override })
on_prev_page-on_next_page_example =
    on_prev_page-on_next_page page 40 read (sent_by page none) thrown refl

abbrev window : Window ℕ
window = record { since = codes "2024-03-01T00:05:00Z"; rest = 0 }

abbrev windows : ApiResponse (List (Window ℕ))
windows = record { success = true; message = none; body = some (window ∷ []) }

abbrev events : ApiResponse (EventsPage ℕ)
events = record { success = true; message = none; body = none }

day-ne-nil : format_local_date read window.since ≢ []
unfolding format_local_date format_date_input_local to_text
day-ne-nil = λ e. cc

abbrev once : Refresh
once = record { current_before_id = none; override = no_override }

-- The range is cleared while the call waits.
abbrev cleared : Page ℕ ℕ ℕ
cleared = record page { all_time = true }

receive-Fills_example :
    Fills page once
      (format_local_date read window.since)
      cleared
      (receive read (request page once) (both windows events) cleared)
receive-Fills_example =
    receive-Fills read page cleared once windows events window refl refl refl day-ne-nil
