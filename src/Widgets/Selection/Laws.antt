-- ===== src/Widgets/Selection/Laws.antt =====
-- What is read of the address behind a choice.
use revlm.Base.{
  ◌≡◌, ◌≢◌, refl, sym, ap, ◌∙◌, true, false, Option, none, some, [], ◌∷◌, arith, if◌then◌else◌,
  or_else, Text, text_eq, text_eq_iff, text_eq_refl, is_empty, trim, inl, inr, Bool-cases,
}
use revlm.Widgets.Selection.{
  SearchParams, is_named, get_param, delete_param, set_param, selection, set_selection,
}

get-delete : (name : Text) (ps : SearchParams) → get_param name (delete_param name ps) ≡ none
unfolding get_param delete_param
get-delete name [] = refl
get-delete name (p ∷ ps) = ground (arith, get-delete name ps)

text_ne : (s t : Text) → s ≢ t → text_eq s t ≡ false
text_ne s t n = elim (Bool-cases (text_eq s t)) [
  | inl same ↦ absurd (n ((text_eq_iff s t).0 same))
  | inr other ↦ other
]

other_named :
    (name other : Text) (p : Text × Text)
    → other ≢ name
    → is_named name p ≡ true
    → is_named other p ≡ false
other_named name other p n h = text_ne p.0 other (λ e. n (sym e ∙ (text_eq_iff p.0 name).0 h))

get-delete-other :
    (name other : Text) (ps : SearchParams)
    → other ≢ name
    → get_param other (delete_param name ps) ≡ get_param other ps
unfolding get_param delete_param
get-delete-other name other [] n = refl
get-delete-other name other (p ∷ ps) n =
    ground (arith, get-delete-other name other ps n, other_named name other p n)

get-set :
    (name value : Text) (ps : SearchParams) → get_param name (set_param name value ps) ≡ some value
unfolding get_param set_param
get-set name value [] = ground (arith, text_eq_refl name)
get-set name value (p ∷ ps) = ground (arith, text_eq_refl name, get-set name value ps)

get-set-other :
    (name value other : Text) (ps : SearchParams)
    → other ≢ name
    → get_param other (set_param name value ps) ≡ get_param other ps
unfolding get_param set_param
get-set-other name value other [] n = rw (text_ne name other (λ e. n (sym e))) refl
get-set-other name value other (p ∷ ps) n = elim (Bool-cases (is_named name p)) [
  | inl same ↦
      rw (same, text_ne name other (λ e. n (sym e)), other_named name other p n same)
        (get-delete-other name other ps n)
  | inr left ↦ ground (arith, get-set-other name value other ps n)
]

-- The address then holds what was set, trimmed, or nothing where that is empty; every other parameter is
-- as it was.
pub selection-set_selection :
    (name : Text) (next : Option Text) (ps : SearchParams)
    → (selection name (set_selection name next ps) ≡ trim (or_else next []))
      × ((other : Text)
          → other ≢ name
          → selection other (set_selection name next ps) ≡ selection other ps)
unfolding selection set_selection
selection-set_selection name next ps = by_text (trim (or_else next []))
  where
    by_text :
        (t : Text)
        → let qs = if is_empty t then delete_param name ps else set_param name t ps in
          (or_else (get_param name qs) [] ≡ t)
          × ((other : Text)
              → other ≢ name
              → or_else (get_param other qs) [] ≡ or_else (get_param other ps) [])
    by_text [] = (
      ap (λ o. or_else o []) (get-delete name ps),
      λ other n. ap (λ o. or_else o []) (get-delete-other name other ps n),
    )
    by_text (c ∷ t) = (
      ap (λ o. or_else o []) (get-set name (c ∷ t) ps),
      λ other n. ap (λ o. or_else o []) (get-set-other name (c ∷ t) other ps n),
    )
