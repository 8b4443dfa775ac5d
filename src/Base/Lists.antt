-- ===== src/Base/Lists.antt =====
-- Lists with native lengths and positions, and predicates on every element.
use Prim.Native.Nat.{ℕ, zero, suc, ◌+◌, ◌≤◌}
use mathlib.Core.Path.{◌≡◌, refl, ap}
use mathlib.Core.Bool.{Bool, true, false, ◌||◌}
use mathlib.Core.Option.{Option, none, some}
use mathlib.Core.List.{List, [], ◌∷◌, ◌++◌}
use native.Mathlib.Omega.{arith}
use mathlib.Core.Logic.{inl, inr}
use revlm.Base.Tests.{if◌then◌else◌, Bool-cases}

module _ {ℓ} {A : Type ℓ} where
  abbrev pub length : List A → ℕ
  length [] = 0
  length (x ∷ xs) = suc (length xs)

  abbrev pub take : ℕ → List A → List A
  take zero xs = []
  take (suc n) [] = []
  take (suc n) (x ∷ xs) = x ∷ take n xs

  abbrev pub drop : ℕ → List A → List A
  drop zero xs = xs
  drop (suc n) [] = []
  drop (suc n) (x ∷ xs) = drop n xs

  -- `xs.filter(p)`
  abbrev pub keep : (A → Bool) → List A → List A
  keep p [] = []
  keep p (x ∷ xs) = if p x then x ∷ keep p xs else keep p xs

  -- `xs.find(p)`
  abbrev pub find : (A → Bool) → List A → Option A
  find p [] = none
  find p (x ∷ xs) = if p x then some x else find p xs

  abbrev pub any : (A → Bool) → List A → Bool
  any p [] = false
  any p (x ∷ xs) = p x || any p xs

  pub length-append : (xs ys : List A) → length (xs ++ ys) ≡ length xs + length ys
  length-append [] ys = omega arith
  length-append (x ∷ xs) ys = omega (arith, length-append xs ys)

  pub length-take-le : (n : ℕ) (xs : List A) → length (take n xs) ≤ n
  length-take-le zero xs = omega arith
  length-take-le (suc n) [] = omega arith
  length-take-le (suc n) (x ∷ xs) = omega (arith, length-take-le n xs)

  pub length-keep-le : (p : A → Bool) (xs : List A) → length (keep p xs) ≤ length xs
  length-keep-le p [] = omega arith
  length-keep-le p (x ∷ xs) = ground (arith, length-keep-le p xs)

  pub keep-append : (p : A → Bool) (xs ys : List A) → keep p (xs ++ ys) ≡ keep p xs ++ keep p ys
  keep-append p [] ys = refl
  keep-append p (x ∷ xs) ys = ground (arith, keep-append p xs ys)

module _ {ℓ κ} {A : Type ℓ} (P : A → Type κ) where
  abbrev pub All : List A → Type κ
  All [] = Unit
  All (x ∷ xs) = P x × All xs

  pub All-append : (xs ys : List A) → All xs → All ys → All (xs ++ ys)
  All-append [] ys h k = k
  All-append (x ∷ xs) ys (p, h) k = (p, All-append xs ys h k)

module _ {ℓ κ ι} {A : Type ℓ} {P : A → Type κ} {Q : A → Type ι} where
  pub All-imp : ((x : A) → P x → Q x) → (xs : List A) → All P xs → All Q xs
  All-imp f [] h = tt
  All-imp f (x ∷ xs) (p, h) = (f x p, All-imp f xs h)

module _ {ℓ κ} {A : Type ℓ} (P : A → Type κ) where
  pub All-without : (xs ys : List A) (x : A) → All P (xs ++ x ∷ ys) → All P (xs ++ ys)
  All-without [] ys x h = h.1
  All-without (z ∷ xs) ys x h = (h.0, All-without xs ys x h.1)

  pub All-right : (xs ys : List A) → All P (xs ++ ys) → All P ys
  All-right [] ys h = h
  All-right (z ∷ xs) ys h = All-right xs ys h.1

  pub All-mid : (xs ys : List A) (x : A) → All P (xs ++ x ∷ ys) → P x
  All-mid [] ys x h = h.0
  All-mid (z ∷ xs) ys x h = All-mid xs ys x h.1

abbrev pub next_index : Option ℕ → Option ℕ
next_index none = none
next_index (some i) = some (suc i)

-- Where a test holds of some element, there is a place at which it does.
pub any-split {ℓ} :
    {A : Type ℓ} (p : A → Bool) (xs : List A)
    → any p xs ≡ true
    → (before after : List A) × (x : A) × (xs ≡ before ++ x ∷ after) × (p x ≡ true)
any-split p [] h = cc
any-split p (x ∷ xs) h = elim (Bool-cases (p x)) [
  | inl here ↦ ([], xs, x, refl, here)
  | inr there ↦
      let (before, after, y, e, holds) = any-split p xs (rw there at h) in
      (x ∷ before, after, y, ap (◌∷◌ x) e, holds)
]

module _ {ℓ} {A : Type ℓ} (p : A → Bool) where
  pub keep-All : (xs : List A) → All (λ x. p x ≡ true) (keep p xs)
  keep-All [] = tt
  keep-All (x ∷ xs) = elim (Bool-cases (p x)) [
    | inl kept ↦ rw kept (kept, keep-All xs)
    | inr left ↦ rw left (keep-All xs)
  ]

  pub keep_of_All : (xs : List A) → All (λ x. p x ≡ true) xs → keep p xs ≡ xs
  keep_of_All [] h = refl
  keep_of_All (x ∷ xs) h = rw h.0 (ap (◌∷◌ x) (keep_of_All xs h.1))

  pub keep_of_none : (xs : List A) → All (λ x. p x ≡ false) xs → keep p xs ≡ []
  keep_of_none [] h = refl
  keep_of_none (x ∷ xs) h = rw h.0 (keep_of_none xs h.1)

  -- `xs.findIndex(p)`, and none for -1.
  abbrev pub find_index : List A → Option ℕ
  find_index [] = none
  find_index (x ∷ xs) = if p x then some 0 else next_index (find_index xs)
