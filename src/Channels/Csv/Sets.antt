-- ===== src/Channels/Csv/Sets.antt =====
-- Lists without repetition, as `Set` keeps them.
use revlm.Base.{
  ◌≡◌, refl, ◌∙◌, inl, inr, false, not, ◌&&◌, ◌||◌, List, [], ◌∷◌, ◌++◌, arith, Bool-cases, All,
  All-append, Text, text_eq, text_eq_iff,
}
use revlm.Channels.Csv.{mem, set_add, set_delete}

abbrev pub Distinct : List Text → Type 0
Distinct [] = Unit
Distinct (x ∷ xs) = (mem x xs ≡ false) × Distinct xs

pub text_eq_sym : (s t : Text) → text_eq s t ≡ text_eq t s
text_eq_sym s t = ground (arith, text_eq_iff s t, text_eq_iff t s)

pub mem-append : (v : Text) (xs ys : List Text) → mem v (xs ++ ys) ≡ (mem v xs || mem v ys)
mem-append v [] ys = refl
mem-append v (x ∷ xs) ys = ground (arith, mem-append v xs ys)

Distinct-concat :
    (xs : List Text) (v : Text) → Distinct xs → mem v xs ≡ false → Distinct (xs ++ v ∷ [])
Distinct-concat [] v h k = (refl, tt)
Distinct-concat (x ∷ xs) v (p, h) k = (
  mem-append x xs (v ∷ []) ∙ ground (arith, text_eq_sym v x),
  Distinct-concat xs v h (ground arith),
)

pub set_add-Distinct : (v : Text) (xs : List Text) → Distinct xs → Distinct (set_add v xs)
unfolding set_add
set_add-Distinct v xs h = elim (Bool-cases (mem v xs)) [
  | inl old ↦ rw old h
  | inr new ↦ rw new (Distinct-concat xs v h new)
]

pub mem-set_add : (v w : Text) (xs : List Text) → mem w (set_add v xs) ≡ (text_eq v w || mem w xs)
unfolding set_add
mem-set_add v w xs = elim (Bool-cases (mem v xs)) [
  | inl old ↦ rw old (ground (arith, text_eq_iff v w))
  | inr new ↦ rw new (mem-append w xs (v ∷ []) ∙ ground arith)
]

pub mem-set_delete :
    (v w : Text) (xs : List Text) → mem w (set_delete v xs) ≡ (not (text_eq v w) && mem w xs)
unfolding set_delete
mem-set_delete v w [] = ground arith
mem-set_delete v w (x ∷ xs) =
    ground (arith, mem-set_delete v w xs, text_eq_iff v w, text_eq_iff x v, text_eq_iff x w)

pub set_delete-Distinct : (v : Text) (xs : List Text) → Distinct xs → Distinct (set_delete v xs)
unfolding set_delete
set_delete-Distinct v [] h = tt
set_delete-Distinct v (x ∷ xs) (p, h) =
    ground (arith, set_delete-Distinct v xs h, mem-set_delete v x xs)

module _ (P : Text → Type 0) where
  pub All-set_add : (v : Text) (xs : List Text) → P v → All P xs → All P (set_add v xs)
  unfolding set_add
  All-set_add v xs p h = elim (Bool-cases (mem v xs)) [
    | inl old ↦ rw old h
    | inr new ↦ rw new (All-append P xs (v ∷ []) h (p, tt))
  ]

  pub All-set_delete : (v : Text) (xs : List Text) → All P xs → All P (set_delete v xs)
  unfolding set_delete
  All-set_delete v [] h = tt
  All-set_delete v (x ∷ xs) (p, h) = elim (Bool-cases (text_eq x v)) [
    | inl hit ↦ rw hit (All-set_delete v xs h)
    | inr miss ↦ rw miss (p, All-set_delete v xs h)
  ]
