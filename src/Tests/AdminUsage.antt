-- ===== src/Tests/AdminUsage.antt =====
-- The admin usage page at concrete inputs.
use revlm.Base.{codes, ◌≡◌, true, none, some, ℕ}
use revlm.Usage.AdminQuery.{QueryState, no_override, no_cursor, build_admin_usage_page_params}
use revlm.Usage.AdminQuery.Filters.{HasFilters}
use revlm.Usage.AdminQuery.Laws.{HasRange, HasCursor, build_admin_usage_page_params_lem}
use revlm.Usage.AdminPage.{Page, initial_query, initial}
use revlm.Usage.AdminPage.Handlers.{handle_reset}
use revlm.Usage.AdminPage.Steps.{Event, World, mounted, acted, act, start, next}
use revlm.Usage.AdminPage.Reachable.{IsSafe, Reach-IsSafe}
use revlm.Usage.AdminPage.Laws.{params_sent, handle_reset_request}

abbrev first_world : World ℕ ℕ ℕ ℕ
first_world = mounted

Reach-IsSafe_example : IsSafe (acted (Event.user (codes "ann")) first_world)
Reach-IsSafe_example = Reach-IsSafe (next start (act first_world (Event.user (codes "ann"))))

-- Both cursors are set, and two filters are on.
abbrev searched : QueryState
searched = record initial_query {
  filter_user = codes " ann ";
  filter_channel_id = some 7;
  before_id = some 90;
}

build_admin_usage_page_params_lem_example :
    HasFilters (build_admin_usage_page_params searched no_override true no_cursor).params
    × HasRange searched no_override
        (build_admin_usage_page_params searched no_override true no_cursor)
    × HasCursor (build_admin_usage_page_params searched no_override true no_cursor).params true
build_admin_usage_page_params_lem_example =
    build_admin_usage_page_params_lem searched no_override true no_cursor

abbrev filtered : Page ℕ ℕ ℕ ℕ
filtered = record initial { query = searched }

handle_reset_request_example :
    params_sent filtered (handle_reset filtered).1
    ≡ some (record {
      start = none;
      end = none;
      all_time = none;
      limit = 50;
      before_id = none;
      after_id = none;
      summary = none;
      user_id = none;
      channel_id = some 7;
      model = none;
      index = none;
      q_user = none;
      q_channel = none;
      q_model = none;
    })
handle_reset_request_example = handle_reset_request filtered
