-- ===== src/Usage/UserPage/Handlers.antt =====
-- The handlers of frontend/src/pages/UsagePage.tsx, those that its view gives to the pickers and
-- buttons included. A handler returns the state that its setters leave and the call of `refresh` that
-- it makes; that call reads the state that the handler was made for.
use revlm.Base.{
  ℕ, Bool, true, false, ◌&&◌, Option, none, some, List, [], ◌∷◌, ◌++◌, ◌==◌, if◌then◌else◌, is_some,
  Text, codes, is_empty, trim,
}
use revlm.Api.{Outcome, loaded, failed, Reply, settle}
use revlm.Usage.AdminQuery.{positive}
use revlm.Usage.UserPage.{Page, no_override, Refresh, no_text}

-- `xs.slice(0, -1)` and `xs[xs.length - 1]`
unfoldable pub without_last : List ℕ → List ℕ
without_last [] = []
without_last (x ∷ []) = []
without_last (x ∷ y ∷ xs) = x ∷ without_last (y ∷ xs)

unfoldable pub last : List ℕ → Option ℕ
last [] = none
last (x ∷ []) = some x
last (x ∷ y ∷ xs) = last (y ∷ xs)

module _ {D : Type 0} where
  abbrev pub detail_of : ℕ → List (ℕ × D) → Option D
  detail_of id [] = none
  detail_of id ((k, d) ∷ ds) = if k == id then some d else detail_of id ds

module _ {W E D : Type 0} where
  -- `setBeforeStack([]); setExpandedID(null)`
  abbrev first_page : Page W E D → Page W E D
  first_page p = record p { before_stack = []; expanded_id = none }

  unfoldable pub on_prev_page : Page W E D → Page W E D × Refresh
  unfolding last without_last
  on_prev_page p =
      let next_stack = without_last p.before_stack in
      (
        record p { before_stack = next_stack; expanded_id = none },
        record { current_before_id = last next_stack; override = no_override },
      )

  abbrev pub go_next : Option ℕ → Page W E D → Page W E D × Option Refresh
  go_next none p = (p, none)
  go_next (some id) p = (
    record p { before_stack = p.before_stack ++ id ∷ []; expanded_id = none },
    some (record { current_before_id = some id; override = no_override }),
  )

  unfoldable pub on_next_page : Page W E D → Page W E D × Option Refresh
  on_next_page p = go_next (positive p.next_before_id) p

  unfoldable on_date_range : Text → Text → Page W E D → Page W E D
  on_date_range start end p = first_page (record p {
    start = start;
    end = end;
    all_time = is_empty (trim start) && is_empty (trim end);
  })

  unfoldable on_limit : ℕ → Page W E D → Page W E D
  on_limit limit p = first_page (record p { limit = limit })

  unfoldable on_filter_key : Text → Page W E D → Page W E D
  on_filter_key v p = first_page (record p { filter_key = v })

  unfoldable on_filter_model : Text → Page W E D → Page W E D
  on_filter_model v p = first_page (record p { filter_model = v })

  unfoldable on_update : Page W E D → Page W E D × Refresh
  on_update p = (first_page p, record { current_before_id = none; override = no_override })

  unfoldable on_reset : Text → Page W E D → Page W E D × Refresh
  on_reset today p = (
    first_page (record p {
      all_time = false;
      start = today;
      end = today;
      filter_key = no_text;
      filter_model = no_text;
    }),
    record {
      current_before_id = none;
      override = record {
        start = some today;
        end = some today;
        all_time = some false;
        filter_key = some no_text;
        filter_model = some no_text;
      };
    },
  )

  -- `loadDetail` up to its `await`: the flag says whether the detail is asked for.
  unfoldable begin_detail : ℕ → Page W E D → Page W E D × Bool
  begin_detail id p =
      if is_some (detail_of id p.details)
      then (p, false)
      else (record p { detail_loading_id = some id }, true)

  abbrev pub absorb_detail : ℕ → Outcome D → Page W E D → Page W E D
  absorb_detail id (loaded none) p = record p { detail_loading_id = none }
  absorb_detail id (loaded (some d)) p = record p {
    details = (id, d) ∷ p.details;
    detail_loading_id = none;
  }
  absorb_detail id (failed message) p = record p { err = message; detail_loading_id = none }

  unfoldable pub receive_detail : ℕ → Reply D → Page W E D → Page W E D
  receive_detail id reply p = absorb_detail id (settle (codes "加载详情失败") reply) p
