-- ===== src/Tests/Widgets.antt =====
-- The input with suggestions, the place of a panel, and a panel that is closed, at concrete inputs.
use revlm.Base.{
  ℕ, ◌+◌, ◌≡◌, refl, ◌⊎◌, true, false, none, some, Option, List, [], ◌∷◌, ◌++◌, Text, codes, trim,
  to_text, find, pos, negsuc, max, ◌+ℤ◌,
}
use revlm.Widgets.Suggest.{
  Search, resolved, SuggestInput, query_of, initial, change, set_focused, fire, receive,
}
use revlm.Widgets.Suggest.Steps.{stay, go, changes, focuses, fires, Reach}
use revlm.Widgets.Suggest.Waits.{Waits, steps, pending}
use revlm.Widgets.Suggest.Live.{receive-current, Settles, Reach-Settles}
use revlm.Widgets.Suggest.Merge.{has_key, merged_items}
use revlm.Widgets.Suggest.Items.{own_items, firsts, Distinct, merged_items-first}
use revlm.Widgets.Popover.{Measures, reposition, IsPlaced, reposition-IsPlaced}
use revlm.Widgets.Presence.{
  Presence, mounted, enter, phase_of, frame_comes, mount, next, draws, Reach-settled,
}

-- The user enters the field and types; the timer runs off.
abbrev typed : SuggestInput ℕ
typed = change (codes "ann") (set_focused true (initial []))

abbrev search : Search
search = record { seq = 1; query = codes "ann" }

abbrev searching : SuggestInput ℕ
searching = fire search typed

searching-Reach : Reach ℕ searching
unfolding change set_focused trim
searching-Reach = (
  [],
  go
      (go (go stay (focuses (initial []) true))
        (changes (set_focused true (initial [])) (codes "ann")))
      (fires typed search refl),
)

abbrev rest : SuggestInput ℕ
rest = record searching { sent = [] }

receive-current_example :
    (receive search (resolved (some (7 ∷ []))) rest ≡ rest) ⊎ (search.query ≡ query_of searching)
unfolding fire change set_focused trim
receive-current_example =
    receive-current searching [] [] search (resolved (some (7 ∷ []))) searching-Reach refl refl refl

Reach-Settles_example :
    ((t : SuggestInput ℕ) × Settles searching (resolved (some (7 ∷ []))) t)
    × ((t : SuggestInput ℕ) (w : Waits searching t)
        → (steps w + pending t ≡ pending searching) × (pending t ≡ 0 → t.loading ≡ false))
unfolding fire change set_focused trim
Reach-Settles_example =
    Reach-Settles searching (resolved (some (7 ∷ []))) searching-Reach refl refl refl

abbrev found : SuggestInput ℕ
found = record (initial (codes "4")) { items = 4 ∷ 5 ∷ 4 ∷ [] }

abbrev adds_five : Option (Text → List ℕ → List ℕ)
adds_five = some (λ q items. 5 ∷ [])

merged_items-first_example :
    (merged_items to_text adds_five found
      ≡ firsts to_text (own_items adds_five (trim found.value) found.items ++ found.items))
    × Distinct to_text (merged_items to_text adds_five found)
    × ((k : Text)
        → find (has_key to_text k) (merged_items to_text adds_five found)
          ≡ find
              (has_key to_text k)
              (own_items adds_five (trim found.value) found.items ++ found.items))
merged_items-first_example = merged_items-first to_text adds_five found

abbrev narrow : Measures
narrow = record {
  btn_left = negsuc 3;
  btn_bottom = pos 40;
  panel_width = pos 500;
  panel_height = pos 100;
  vw = pos 400;
  vh = pos 300;
}

reposition-IsPlaced_example :
    IsPlaced
      (pos 12)
      (max (pos 0) (pos 500))
      (pos 400)
      (negsuc 3)
      (reposition (pos 12) (pos 8) narrow).left
    × IsPlaced
        (pos 12)
        (max (pos 0) (pos 100))
        (pos 300)
        (pos 40 +ℤ pos 8)
        (reposition (pos 12) (pos 8) narrow).top
reposition-IsPlaced_example = reposition-IsPlaced (pos 12) (pos 8) narrow

abbrev drawn : Presence
drawn = frame_comes enter (mounted true)

Reach-settled_example :
    (drawn.wanted ≡ true → drawn.timer ≡ false)
    × (drawn.frame ≡ none
        → drawn.timer ≡ false
        → (drawn.present ≡ drawn.wanted) × (drawn.phase ≡ phase_of drawn.wanted))
unfolding mounted
Reach-settled_example = Reach-settled drawn (next (mount true) (draws (mounted true) enter refl))
