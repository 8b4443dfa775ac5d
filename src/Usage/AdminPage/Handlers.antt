-- ===== src/Usage/AdminPage/Handlers.antt =====
-- The handlers of frontend/src/pages/admin/UsageAdminPage.tsx. A handler returns the state that its
-- setters leave and the call of `refresh` that it makes; that call reads the state that the handler was
-- made for. The panel of filters that a reset closes is not part of this state.
use revlm.Base.{
  ℕ, Bool, true, false, ◌&&◌, Option, none, some, List, [], ◌∷◌, ◌==◌, if◌then◌else◌, or_else,
  is_some, Text, codes, is_empty, trim,
}
use revlm.Api.{Reply, Outcome, loaded, failed, settle}
use revlm.Usage.AdminQuery.{QueryState, RefreshOverride, no_override}
use revlm.Usage.AdminPage.{
  Page, RefreshOptions, plain, no_text, initial_query, prev_after_of, next_before_of,
}

abbrev pub detail_of : {D : Type 0} → ℕ → List (ℕ × D) → Option D
detail_of id [] = none
detail_of id ((k, d) ∷ ds) = if k == id then some d else detail_of id ds

abbrev reset_cursor : QueryState → QueryState
reset_cursor q = record q { before_id = none; after_id = none }

-- `!range.start.trim() && !range.end.trim()`
abbrev covers_all : Text → Text → Bool
covers_all start end = is_empty (trim start) && is_empty (trim end)

-- The override of a reset. Its identifiers are undefined, which `??` takes for fields left out.
abbrev reset_override : RefreshOverride
reset_override = record no_override {
  start = some no_text;
  end = some no_text;
  all_time = some false;
  filter_user = some no_text;
  filter_channel = some no_text;
  filter_model = some no_text;
}

module _ {W U E D : Type 0} where
  abbrev with_query : Page W U E D → QueryState → Page W U E D
  with_query p q = record p { query = q }

  unfoldable pub handle_date_range_change :
      Text → Text → Page W U E D → Page W U E D × Option RefreshOptions
  handle_date_range_change start end p = (
    with_query p (
        reset_cursor
          (record (p.query) { start = start; end = end; all_time = covers_all start end })),
    none,
  )

  unfoldable pub handle_user_change : Text → Page W U E D → Page W U E D × Option RefreshOptions
  handle_user_change value p = (
    with_query p (reset_cursor (record (p.query) { filter_user = value; filter_user_id = none })),
    none,
  )

  unfoldable pub handle_channel_change : Text → Page W U E D → Page W U E D × Option RefreshOptions
  handle_channel_change value p = (
    with_query p
        (reset_cursor (record (p.query) { filter_channel = value; filter_channel_id = none })),
    none,
  )

  unfoldable pub handle_model_change : Text → Page W U E D → Page W U E D × Option RefreshOptions
  handle_model_change value p = (
    with_query p
        (reset_cursor (record (p.query) { filter_model = value; filter_model_exact = none })),
    none,
  )

  unfoldable pub handle_limit_change : ℕ → Page W U E D → Page W U E D × Option RefreshOptions
  handle_limit_change limit p = (with_query p (record (p.query) { limit = limit }), none)

  unfoldable pub handle_refresh : Page W U E D → Page W U E D × Option RefreshOptions
  handle_refresh p = (with_query p (reset_cursor p.query), some plain)

  unfoldable pub handle_reset : Page W U E D → Page W U E D × Option RefreshOptions
  handle_reset p = (
    with_query p (record initial_query { limit = p.query.limit }),
    some (record {
      keep_cursor = false;
      override = reset_override;
      cursor = record { before_id = some none; after_id = some none };
    }),
  )

  -- `!data?.prev_after_id` and `!data?.next_before_id` return at once.
  abbrev pub to_newer : Option ℕ → Page W U E D → Page W U E D × Option RefreshOptions
  to_newer none p = (p, none)
  to_newer (some id) p = (
    with_query p (record (p.query) { before_id = none; after_id = some id }),
    some (record plain {
      keep_cursor = true;
      cursor = record { before_id = some none; after_id = some (some id) };
    }),
  )

  abbrev pub to_older : Option ℕ → Page W U E D → Page W U E D × Option RefreshOptions
  to_older none p = (p, none)
  to_older (some id) p = (
    with_query p (record (p.query) { before_id = some id; after_id = none }),
    some (record plain {
      keep_cursor = true;
      cursor = record { before_id = some (some id); after_id = some none };
    }),
  )

  unfoldable pub handle_prev_page : Page W U E D → Page W U E D × Option RefreshOptions
  handle_prev_page p = to_newer (prev_after_of p.found) p

  unfoldable pub handle_next_page : Page W U E D → Page W U E D × Option RefreshOptions
  handle_next_page p = to_older (next_before_of p.found) p

  -- `handleToggleEvent`, and the setter in front of the `await` of `loadDetail`: the flag says whether
  -- the detail is asked for.
  abbrev open_event : ℕ → Page W U E D → Page W U E D × Bool
  open_event id p =
      if is_some (detail_of id p.details)
      then (p, false)
      else (record p { detail_loading_id = some id }, true)

  unfoldable pub handle_toggle_event : ℕ → Page W U E D → Page W U E D × Bool
  handle_toggle_event id p =
      if is_some p.expanded_id && (or_else p.expanded_id 0 == id)
      then (record p { expanded_id = none }, false)
      else if id == 0
      then (record p { expanded_id = some id }, false)
      else open_event id (record p { expanded_id = some id })

  abbrev pub absorb_detail : ℕ → Outcome D → Page W U E D → Page W U E D
  absorb_detail id (loaded none) p = record p { detail_loading_id = none }
  absorb_detail id (loaded (some d)) p = record p {
    details = (id, d) ∷ p.details;
    detail_loading_id = none;
  }
  absorb_detail id (failed message) p = record p { err = message; detail_loading_id = none }

  unfoldable pub receive_detail : ℕ → Reply D → Page W U E D → Page W U E D
  receive_detail id reply p = absorb_detail id (settle (codes "加载详情失败") reply) p
