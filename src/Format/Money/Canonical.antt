-- ===== src/Format/Money/Canonical.antt =====
-- What a decimal text becomes when the zeros at its end are dropped.
use native.Mathlib.Nat.{pow-suc}
use revlm.Base.{
  ℕ, suc, ◌+◌, ◌-◌, ◌*◌, ◌^◌, ◌≤◌, ◌≡◌, refl, ap, ◌∙◌, ◌≢◌, inl, inr, [], ◌∷◌, ◌++◌, arith, ◌==◌,
  ==_iff, Bool-cases, length, All, Text, Lacks, IsDigit, value_from,
}
use revlm.Format.Money.{drop_zeros, drop_dot, hold_digit}

-- The last character of a text is no zero.
abbrev pub NoZeroEnd : Text → Type 0
NoZeroEnd [] = Unit
NoZeroEnd (c ∷ []) = c ≢ b'0'
NoZeroEnd (c ∷ d ∷ s) = NoZeroEnd (d ∷ s)

-- A decimal text with the whole part `i` and the fraction `g`, and no point where `g` is empty.
abbrev pub decimal : Text → Text → Text
decimal i [] = i
decimal i (c ∷ g) = i ++ b'.' ∷ c ∷ g

NoZeroEnd-hold_digit : (c : ℕ) (r : Text) → NoZeroEnd r → NoZeroEnd (hold_digit c r)
NoZeroEnd-hold_digit c [] h = ground arith
NoZeroEnd-hold_digit c (d ∷ r) h = h

pub NoZeroEnd-drop_zeros : (s : Text) → NoZeroEnd (drop_zeros s)
unfolding drop_zeros
NoZeroEnd-drop_zeros [] = tt
NoZeroEnd-drop_zeros (c ∷ s) = NoZeroEnd-hold_digit c (drop_zeros s) (NoZeroEnd-drop_zeros s)

All-hold_digit : (P : ℕ → Type 0) (c : ℕ) (r : Text) → P c → All P r → All P (hold_digit c r)
All-hold_digit P c [] p h = elim (Bool-cases (c == b'0')) [
  | inl zero_digit ↦ rw zero_digit tt
  | inr other ↦ rw other (p, tt)
]
All-hold_digit P c (d ∷ r) p h = (p, h)

pub All-drop_zeros : (P : ℕ → Type 0) (s : Text) → All P s → All P (drop_zeros s)
unfolding drop_zeros
All-drop_zeros P [] h = tt
All-drop_zeros P (c ∷ s) (p, h) = All-hold_digit P c (drop_zeros s) p (All-drop_zeros P s h)

hold_digit_kept : (c : ℕ) (r : Text) → c ≢ b'0' → hold_digit c r ≡ c ∷ r
hold_digit_kept c [] h = ground arith
hold_digit_kept c (d ∷ r) h = refl

hold_digit-append : (c d : ℕ) (i z : Text) → hold_digit c (i ++ d ∷ z) ≡ c ∷ (i ++ d ∷ z)
hold_digit-append c d [] z = refl
hold_digit-append c d (e ∷ i) z = refl

-- Zeros behind the point go, and nothing in front of it.
pub drop_zeros-append : (i f : Text) → drop_zeros (i ++ b'.' ∷ f) ≡ i ++ b'.' ∷ drop_zeros f
unfolding drop_zeros
drop_zeros-append [] f = hold_digit_kept b'.' (drop_zeros f) (omega arith)
drop_zeros-append (c ∷ i) f = rw (drop_zeros-append i f) (hold_digit-append c b'.' i (drop_zeros f))

drop_dot-append : (c d : ℕ) (i z : Text) → drop_dot (c ∷ (i ++ d ∷ z)) ≡ c ∷ drop_dot (i ++ d ∷ z)
unfolding drop_dot
drop_dot-append c d [] z = refl
drop_dot-append c d (e ∷ i) z = refl

drop_dot_of_Lacks : (g : Text) → Lacks b'.' g → drop_dot g ≡ g
unfolding drop_dot
drop_dot_of_Lacks [] h = refl
drop_dot_of_Lacks (c ∷ []) (p, h) = ground arith
drop_dot_of_Lacks (c ∷ d ∷ g) (p, h) = ap (◌∷◌ c) (drop_dot_of_Lacks (d ∷ g) h)

drop_dot_point : (g : Text) → Lacks b'.' g → drop_dot (b'.' ∷ g) ≡ decimal [] g
unfolding drop_dot
drop_dot_point [] h = refl
drop_dot_point (c ∷ g) h = ap (◌∷◌ b'.') (drop_dot_of_Lacks (c ∷ g) h)

decimal-cons : (c : ℕ) (i g : Text) → c ∷ decimal i g ≡ decimal (c ∷ i) g
decimal-cons c i [] = refl
decimal-cons c i (d ∷ g) = refl

-- A point goes where no digit is left behind it.
pub drop_dot-decimal : (i g : Text) → Lacks b'.' g → drop_dot (i ++ b'.' ∷ g) ≡ decimal i g
drop_dot-decimal [] g h = drop_dot_point g h
drop_dot-decimal (c ∷ i) g h =
    drop_dot-append c b'.' i g ∙ ap (◌∷◌ c) (drop_dot-decimal i g h) ∙ decimal-cons c i g

scale : (a k w m : ℕ) → a * 10 ^ k ≡ w * 10 ^ m → a * 10 ^ suc k ≡ w * 10 ^ suc m
scale a k w m h = rw (pow-suc 10 k, pow-suc 10 m) (omega (arith, ap (λ (t : ℕ). t * 10) h))

zero_last : (n c k w : ℕ) → c ≡ b'0' → (n * 10 + (c - b'0')) * 10 ^ k ≡ w → n * 10 ^ suc k ≡ w
zero_last n c k w e h =
    let same : n * 10 + (c - b'0') ≡ n * 10 = omega arith in
    rw (pow-suc 10 k) (omega (arith, rw same at h))

hold_digit-value :
    (n c : ℕ) (r : Text) (k : ℕ) (w : ℕ)
    → b'0' ≤ c
    → value_from (n * 10 + (c - b'0')) r * 10 ^ k ≡ w * 10 ^ length r
    → value_from n (hold_digit c r) * 10 ^ suc k ≡ w * 10 ^ length (hold_digit c r)
hold_digit-value n c (d ∷ r) k w p h = scale _ k w (length (d ∷ r)) h
hold_digit-value n c [] k w p h = elim (Bool-cases (c == b'0')) [
  | inl zero_digit ↦
      rw zero_digit (omega (arith, zero_last n c k w ((==_iff c b'0').0 zero_digit) (omega arith)))
  | inr other ↦ rw other (scale _ k w 0 h)
]

-- Dropping zeros behind the point leaves the number as it was: `v / 10 ^ length` is the same.
pub drop_zeros-value :
    (n : ℕ) (f : Text)
    → All IsDigit f
    → value_from n (drop_zeros f) * 10 ^ length f ≡ value_from n f * 10 ^ length (drop_zeros f)
unfolding drop_zeros
drop_zeros-value n [] h = refl
drop_zeros-value n (c ∷ f) (p, h) =
    hold_digit-value n c (drop_zeros f) (length f) (value_from (n * 10 + (c - b'0')) f) p.0
      (drop_zeros-value (n * 10 + (c - b'0')) f h)
