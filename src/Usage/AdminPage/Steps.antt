-- ===== src/Usage/AdminPage/Steps.antt =====
-- The admin usage page as a transition system: what the user does, and the answers that arrive, in
-- any order, for the queries that were sent.
use revlm.Base.{ℕ, ◌≡◌, Option, none, some, List, [], ◌∷◌, ◌++◌, Text}
use revlm.Api.{Reply}
use revlm.Usage.AdminQuery.{PageQuery}
use revlm.Usage.AdminPage.{
  UsageData, Page, RefreshOptions, plain, initial, request, begin_load, receive,
}
use revlm.Usage.AdminPage.Handlers.{
  handle_date_range_change, handle_user_change, handle_channel_change, handle_model_change,
  handle_limit_change, handle_refresh, handle_reset, handle_prev_page, handle_next_page,
  handle_toggle_event, receive_detail,
}

pub data Event : Type 0 where
  date_range : Text → Text → Event
  user channel model : Text → Event
  limit : ℕ → Event
  refresh reset prev_page next_page : Event

module _ {W U E D : Type 0} where
  unfoldable pub handle : Event → Page W U E D → Page W U E D × Option RefreshOptions
  handle (date_range start end) = handle_date_range_change start end
  handle (user name) = handle_user_change name
  handle (channel name) = handle_channel_change name
  handle (model name) = handle_model_change name
  handle (limit n) = handle_limit_change n
  handle refresh = handle_refresh
  handle reset = handle_reset
  handle prev_page = handle_prev_page
  handle next_page = handle_next_page

-- The page, and the queries whose answers are not there yet.
pub record World (W U E D : Type 0) : Type 0 where
  pub page : Page W U E D
  pub sent : List PageQuery

module _ {W U E D : Type 0} where
  -- A handler's call of `refresh` reads the page as it was before the handler's setters.
  abbrev pub after_call :
      Page W U E D → Page W U E D → Option RefreshOptions → List PageQuery → World W U E D
  after_call old new none sent = record { page = new; sent = sent }
  after_call old new (some o) sent = record {
    page = begin_load new;
    sent = sent ++ request old o ∷ [];
  }

  abbrev pub acted : Event → World W U E D → World W U E D
  acted e w = let r = handle e w.page in after_call w.page r.0 r.1 w.sent

  -- The first render, whose effect calls `refresh`.
  abbrev pub mounted : World W U E D
  mounted = record {
    page = begin_load initial;
    sent = request {W = W} {U = U} {E = E} {D = D} initial plain ∷ [];
  }

  pub data Step : World W U E D → World W U E D → Type 0 where
    act : (w : World W U E D) (e : Event) → Step w (acted e w)
    toggle :
        (w : World W U E D) (id : ℕ)
        → Step w (record w { page = (handle_toggle_event id w.page).0 })
    answer :
        (w : World W U E D) (xs ys : List PageQuery) (q : PageQuery)
        (reply : Reply (UsageData W U E))
        → w.sent ≡ xs ++ q ∷ ys
        → Step w (record { page = receive q reply w.page; sent = xs ++ ys })
    answer_detail :
        (w : World W U E D) (id : ℕ) (reply : Reply D)
        → Step w (record w { page = receive_detail id reply w.page })

  pub data Reach : World W U E D → Type 0 where
    start : Reach mounted
    next : {w v : World W U E D} → Reach w → Step w v → Reach v
