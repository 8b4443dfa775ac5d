-- ===== src/Base/Trim.antt =====
-- Laws of `trim`.
use Prim.Native.Nat.{ℕ, suc, ◌≤◌}
use mathlib.Core.Path.{◌≡◌, refl, ap, ◌∙◌, sym}
use mathlib.Core.Logic.{◌≢◌, inl, inr}
use mathlib.Core.Bool.{true, false}
use mathlib.Core.List.{[], ◌∷◌, ◌++◌}
use native.Mathlib.Omega.{arith}
use revlm.Base.Tests.{Bool-cases}
use revlm.Base.Lists.{All, All-imp, length}
use revlm.Base.Texts.{Text, IsDigit, is_space_between, is_space, hold, trim_start, trim_end, trim}

abbrev pub NoSpace : Text → Type 0
NoSpace = All (λ c. is_space c ≡ false)

-- A text that `trim` leaves alone.
abbrev pub IsTrimmed : Text → Type 0
IsTrimmed s = trim s ≡ s

hold_kept : (c : ℕ) (r : Text) → is_space c ≡ false → hold c r ≡ c ∷ r
hold_kept c [] h = rw h
hold_kept c (d ∷ r) h = refl

trim_end_kept : (c : ℕ) (s : Text) → is_space c ≡ false → trim_end (c ∷ s) ≡ c ∷ trim_end s
unfolding trim_end
trim_end_kept c s h = hold_kept c (trim_end s) h

trim_end-hold : (c : ℕ) (r : Text) → trim_end r ≡ r → trim_end (hold c r) ≡ hold c r
trim_end-hold c [] e = elim (Bool-cases (is_space c)) [
  | inl space ↦ rw space (unfold trim_end in refl)
  | inr kept ↦ rw kept (trim_end_kept c [] kept ∙ ap (◌∷◌ c) e)
]
trim_end-hold c (d ∷ r) e = unfold trim_end in rw e

pub trim_end_idem : (s : Text) → trim_end (trim_end s) ≡ trim_end s
trim_end_idem [] = unfold trim_end in refl
trim_end_idem (c ∷ s) =
    let ih = trim_end_idem s in
    let step : trim_end (c ∷ s) ≡ hold c (trim_end s) = unfold trim_end in refl in
    rw step (trim_end-hold c (trim_end s) ih)

trim_start_kept : (c : ℕ) (s : Text) → is_space c ≡ false → trim_start (c ∷ s) ≡ c ∷ s
unfolding trim_start
trim_start_kept c s h = rw h

pub trim_kept : (c : ℕ) (s : Text) → is_space c ≡ false → trim (c ∷ s) ≡ c ∷ trim_end s
unfolding trim
trim_kept c s h = rw (trim_start_kept c s h) (trim_end_kept c s h)

trim_space : (c : ℕ) (s : Text) → is_space c ≡ true → trim (c ∷ s) ≡ trim s
unfolding trim trim_start
trim_space c s h = rw h

trim_start_space : (c : ℕ) (s : Text) → is_space c ≡ true → trim_start (c ∷ s) ≡ trim_start s
unfolding trim_start
trim_start_space c s h = rw h

-- Trimming a second time changes nothing.
pub trim_idem : (s : Text) → IsTrimmed (trim s)
trim_idem [] = unfold trim in refl
trim_idem (c ∷ s) = elim (Bool-cases (is_space c)) [
  | inl space ↦ rw (trim_space c s space) (trim_idem s)
  | inr kept ↦
      rw (trim_kept c s kept) (trim_kept c (trim_end s) kept ∙ ap (◌∷◌ c) (trim_end_idem s))
]

pub trim_end_of_NoSpace : (s : Text) → NoSpace s → trim_end s ≡ s
trim_end_of_NoSpace [] h = unfold trim_end in refl
trim_end_of_NoSpace (c ∷ s) (k, h) = trim_end_kept c s k ∙ ap (◌∷◌ c) (trim_end_of_NoSpace s h)

-- A text without white space is trimmed.
pub trim_of_NoSpace : (s : Text) → NoSpace s → IsTrimmed s
trim_of_NoSpace [] h = unfold trim in refl
trim_of_NoSpace (c ∷ s) (k, h) = trim_kept c s k ∙ ap (◌∷◌ c) (trim_end_of_NoSpace s h)

module _ {ℓ} (P : ℕ → Type ℓ) where
  All-hold : (c : ℕ) (r : Text) → P c → All P r → All P (hold c r)
  All-hold c [] p h = elim (Bool-cases (is_space c)) [
    | inl space ↦ rw space tt
    | inr kept ↦ rw kept (p, tt)
  ]
  All-hold c (d ∷ r) p h = (p, h)

  All-trim_end : (s : Text) → All P s → All P (trim_end s)
  unfolding trim_end
  All-trim_end [] h = tt
  All-trim_end (c ∷ s) (p, h) = All-hold c (trim_end s) p (All-trim_end s h)

  All-trim_start : (s : Text) → All P s → All P (trim_start s)
  All-trim_start [] h = unfold trim_start in tt
  All-trim_start (c ∷ s) (p, h) = elim (Bool-cases (is_space c)) [
    | inl space ↦ rw (trim_start_space c s space) (All-trim_start s h)
    | inr kept ↦ rw (trim_start_kept c s kept) (p, h)
  ]

  -- What holds of every character holds of those that `trim` leaves.
  pub All-trim : (s : Text) → All P s → All P (trim s)
  unfolding trim
  All-trim s h = All-trim_end (trim_start s) (All-trim_start s h)

length-hold-le : (c : ℕ) (r : Text) → length (hold c r) ≤ suc (length r)
length-hold-le c [] = ground arith
length-hold-le c (d ∷ r) = omega arith

pub length-trim_end-le : (s : Text) → length (trim_end s) ≤ length s
unfolding trim_end
length-trim_end-le [] = omega arith
length-trim_end-le (c ∷ s) = omega (arith, length-hold-le c (trim_end s), length-trim_end-le s)

length-trim_start-le : (s : Text) → length (trim_start s) ≤ length s
unfolding trim_start
length-trim_start-le [] = omega arith
length-trim_start-le (c ∷ s) = ground (arith, length-trim_start-le s)

pub length-trim-le : (s : Text) → length (trim s) ≤ length s
unfolding trim
length-trim-le s = omega (arith, length-trim_end-le (trim_start s), length-trim_start-le s)

hold_full : (c : ℕ) (r : Text) → length (hold c r) ≡ suc (length r) → hold c r ≡ c ∷ r
hold_full c [] h = ground arith
hold_full c (d ∷ r) h = refl

trim_end_full : (s : Text) → length (trim_end s) ≡ length s → trim_end s ≡ s
unfolding trim_end
trim_end_full [] h = refl
trim_end_full (c ∷ s) h =
    let below = length-hold-le c (trim_end s) in
    let same : length (trim_end s) ≡ length s = omega (arith, length-trim_end-le s) in
    let ih = trim_end_full s same in hold_full c (trim_end s) (omega arith) ∙ ap (◌∷◌ c) ih

trim_start_full : (s : Text) → length (trim_start s) ≡ length s → trim_start s ≡ s
unfolding trim_start
trim_start_full [] h = refl
trim_start_full (c ∷ s) h = ground (arith, length-trim_start-le s)

-- Where `trim` removes nothing it changes nothing.
pub trim_full : (s : Text) → length (trim s) ≡ length s → IsTrimmed s
unfolding trim
trim_full s h =
    let first : trim_start s ≡ s =
      trim_start_full s
        (omega (arith, length-trim_end-le (trim_start s), length-trim_start-le s)) in
    rw first (trim_end_full s (rw first at h))

-- The first character of a trimmed text is no white space.
pub trimmed_first : (c : ℕ) (s : Text) → IsTrimmed (c ∷ s) → is_space c ≡ false
trimmed_first c s h = elim (Bool-cases (is_space c)) [
  | inl space ↦ absurd (
      let same : length (trim s) ≡ suc (length s) = ap length (sym (trim_space c s space) ∙ h) in
      omega (arith, length-trim-le s))
  | inr kept ↦ kept
]

hold_behind : (c : ℕ) (r : Text) → r ≢ [] → hold c r ≡ c ∷ r
hold_behind c [] h = absurd (h refl)
hold_behind c (d ∷ r) h = refl

pub append-ne-nil : (s t : Text) → t ≢ [] → s ++ t ≢ []
append-ne-nil [] t h = h
append-ne-nil (c ∷ s) t h = λ e. cc

-- Only the end of the last part is trimmed.
pub trim_end-append : (s t : Text) → t ≢ [] → trim_end t ≡ t → trim_end (s ++ t) ≡ s ++ t
unfolding trim_end
trim_end-append [] t some_part h = h
trim_end-append (c ∷ s) t some_part h =
    ap (hold c) (trim_end-append s t some_part h)
    ∙ hold_behind c (s ++ t) (append-ne-nil s t some_part)

pub trimmed_end : (c : ℕ) (s : Text) → IsTrimmed (c ∷ s) → trim_end (c ∷ s) ≡ c ∷ s
trimmed_end c s h =
    let kept = trimmed_first c s h in trim_end_kept c s kept ∙ sym (trim_kept c s kept) ∙ h

-- A text is trimmed if it begins with a trimmed part and ends with one.
pub IsTrimmed-append :
    (c : ℕ) (s t : Text) → is_space c ≡ false → t ≢ [] → trim_end t ≡ t → IsTrimmed ((c ∷ s) ++ t)
IsTrimmed-append c s t kept some_part h =
    trim_kept c (s ++ t) kept ∙ ap (◌∷◌ c) (trim_end-append s t some_part h)

pub digits-NoSpace : (s : Text) → All IsDigit s → NoSpace s
digits-NoSpace s h =
    All-imp (λ c (k : IsDigit c). is_space_between c (omega arith) (omega arith)) s h
