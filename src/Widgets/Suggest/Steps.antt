-- ===== src/Widgets/Suggest/Steps.antt =====
-- The input with suggestions as a transition system: what the user and the page do, timers that run
-- off, and answers, in any order. The field loses the focus some time after a blur, or at once.
use revlm.Base.{◌≡◌, Bool, some, List, ◌∷◌, ◌++◌, Text}
use revlm.Widgets.Suggest.{
  Search, Fetched, SuggestInput, initial, effect, change, set_focused, fire, receive,
}

module _ {T : Type 0} where
  pub data Step : SuggestInput T → SuggestInput T → Type 0 where
    changes : (s : SuggestInput T) (value : Text) → Step s (change value s)
    focuses : (s : SuggestInput T) (focused : Bool) → Step s (set_focused focused s)
    -- `fetchItems` or the delay is another one.
    refetches : (s : SuggestInput T) → Step s (effect s)
    fires : (s : SuggestInput T) (f : Search) → s.timer ≡ some f → Step s (fire f s)
    answers :
        (s : SuggestInput T) (before after : List Search) (f : Search) (answer : Fetched T)
        → s.sent ≡ before ++ f ∷ after
        → Step s (receive f answer (record s { sent = before ++ after }))

  pub data Run (s : SuggestInput T) : SuggestInput T → Type 0 where
    stay : Run s s
    go : {t u : SuggestInput T} → Run s t → Step t u → Run s u

-- What the first render, whose effect finds no focus, leads to.
abbrev pub Reach : (T : Type 0) → SuggestInput T → Type 0
Reach T s = (value : Text) × Run (initial value) s
