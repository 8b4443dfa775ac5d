-- ===== src/Models/Sorting/Laws.antt =====
-- A sorted list holds what was sorted, in order; sorting it again changes nothing.
use mathlib.Core.List.{Perm}
use mathlib.Core.List.Perm
use revlm.Base.{
  ◌≡◌, refl, ap, ◌∙◌, ◌⊎◌, inl, inr, Bool, true, false, ◌||◌, List, [], ◌∷◌, arith, Bool-cases, All,
  All-imp, any,
}
use revlm.Models.Sorting.{insert, sort}

module _ {A : Type 0} (le : A → A → Bool) where
  abbrev pub IsSorted : List A → Type 0
  IsSorted [] = Unit
  IsSorted (x ∷ xs) = All (λ y. le x y ≡ true) xs × IsSorted xs

  pub All-insert : (P : A → Type 0) (x : A) (xs : List A) → P x → All P xs → All P (insert le x xs)
  unfolding insert
  All-insert P x [] h k = (h, tt)
  All-insert P x (y ∷ ys) h k = elim (Bool-cases (le x y)) [
    | inl first ↦ rw first (h, k)
    | inr behind ↦ rw behind (k.0, All-insert P x ys h k.1)
  ]

  pub All-sort : (P : A → Type 0) (xs : List A) → All P xs → All P (sort le xs)
  unfolding sort
  All-sort P [] h = tt
  All-sort P (x ∷ xs) h = All-insert P x (sort le xs) h.0 (All-sort P xs h.1)

  pub any-insert : (p : A → Bool) (x : A) (xs : List A) → any p (insert le x xs) ≡ (p x || any p xs)
  unfolding insert
  any-insert p x [] = refl
  any-insert p x (y ∷ ys) = ground (arith, any-insert p x ys)

  pub any-sort : (p : A → Bool) (xs : List A) → any p (sort le xs) ≡ any p xs
  unfolding sort
  any-sort p [] = refl
  any-sort p (x ∷ xs) = any-insert p x (sort le xs) ∙ ap (λ b. p x || b) (any-sort p xs)

  insert-perm : (x : A) (xs : List A) → Perm (insert le x xs) (x ∷ xs)
  unfolding insert
  insert-perm x [] = Perm.refl (x ∷ [])
  insert-perm x (y ∷ ys) = elim (Bool-cases (le x y)) [
    | inl first ↦ rw first (Perm.refl (x ∷ y ∷ ys))
    | inr behind ↦ rw behind (Perm.trans (Perm.cons y (insert-perm x ys)) (Perm.swap x y ys))
  ]

  pub sort-perm : (xs : List A) → Perm (sort le xs) xs
  unfolding sort
  sort-perm [] = Perm.refl []
  sort-perm (x ∷ xs) = Perm.trans (insert-perm x (sort le xs)) (Perm.cons x (sort-perm xs))

  insert_of_All : (x : A) (xs : List A) → All (λ y. le x y ≡ true) xs → insert le x xs ≡ x ∷ xs
  unfolding insert
  insert_of_All x [] h = refl
  insert_of_All x (y ∷ ys) h = rw h.0 refl

  pub sort_of_IsSorted : (xs : List A) → IsSorted xs → sort le xs ≡ xs
  unfolding sort
  sort_of_IsSorted [] h = refl
  sort_of_IsSorted (x ∷ xs) h = rw (sort_of_IsSorted xs h.1) (insert_of_All x xs h.0)

  module _ (total : (a b : A) → (le a b ≡ true) ⊎ (le b a ≡ true))
      (trans : (a b c : A) → le a b ≡ true → le b c ≡ true → le a c ≡ true) where
    after : (a b : A) → le a b ≡ false → le b a ≡ true
    after a b h = ground (arith, total a b)

    insert-IsSorted : (x : A) (xs : List A) → IsSorted xs → IsSorted (insert le x xs)
    unfolding insert
    insert-IsSorted x [] h = (tt, tt)
    insert-IsSorted x (y ∷ ys) h = elim (Bool-cases (le x y)) [
      | inl first ↦ rw first ((first, All-imp (λ z k. trans x y z first k) ys h.0), h)
      | inr behind ↦
          rw behind
            (All-insert (λ z. le y z ≡ true) x ys (after x y behind) h.0, insert-IsSorted x ys h.1)
    ]

    pub sort-IsSorted : (xs : List A) → IsSorted (sort le xs)
    unfolding sort
    sort-IsSorted [] = tt
    sort-IsSorted (x ∷ xs) = insert-IsSorted x (sort le xs) (sort-IsSorted xs)
