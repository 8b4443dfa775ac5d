-- ===== src/Base/Integers.antt =====
-- Integers over the native numbers, with what the positions on a screen need.
use Prim.Native.Nat.{ℕ, zero, suc, ◌+◌, ◌-◌, ◌≤◌}
use mathlib.Core.Path.{◌≡◌, refl, ap, ◌∙◌}
use mathlib.Core.List.{[], ◌∷◌}
use mathlib.Core.Logic.{◌⊎◌}
use native.Mathlib.Omega.{arith}
use revlm.Base.Tests.{if◌then◌else◌, leb, ◌==◌}
use revlm.Base.Lists.{All}
use revlm.Base.Texts.{Text, trim_start, is_space_between, is_digit, IsDigit}
use revlm.Base.Decimal.{value, to_text, value-to_text, All-to_text}

-- `negsuc n` is -(n + 1).
pub data ℤ : Type 0 where
  pos : ℕ → ℤ
  negsuc : ℕ → ℤ

abbrev pub pos_part : ℤ → ℕ
pos_part (pos n) = n
pos_part (negsuc n) = 0

abbrev pub neg_part : ℤ → ℕ
neg_part (pos n) = 0
neg_part (negsuc n) = suc n

abbrev pub sub_ℕ : ℕ → ℕ → ℤ
sub_ℕ a b = if leb b a then pos (a - b) else negsuc (b - a - 1)

infixl 65 ◌+ℤ◌ ◌-ℤ◌
infix 50 ◌≤ℤ◌
unfoldable pub ◌+ℤ◌ : ℤ → ℤ → ℤ
a +ℤ b = sub_ℕ (pos_part a + pos_part b) (neg_part a + neg_part b)

unfoldable pub ◌-ℤ◌ : ℤ → ℤ → ℤ
a -ℤ b = sub_ℕ (pos_part a + neg_part b) (neg_part a + pos_part b)

abbrev pub ◌≤ℤ◌ : ℤ → ℤ → Type 0
a ≤ℤ b = pos_part a + neg_part b ≤ pos_part b + neg_part a

-- `Math.max` and `Math.min`
unfoldable pub max : ℤ → ℤ → ℤ
max a b = if leb (pos_part a + neg_part b) (pos_part b + neg_part a) then b else a

unfoldable pub min : ℤ → ℤ → ℤ
min a b = if leb (pos_part a + neg_part b) (pos_part b + neg_part a) then a else b

pub +ℤ_parts :
    (a b : ℤ)
    → pos_part (a +ℤ b) + neg_part a + neg_part b ≡ neg_part (a +ℤ b) + pos_part a + pos_part b
unfolding ◌+ℤ◌
+ℤ_parts a b = ground arith

pub -ℤ_parts :
    (a b : ℤ)
    → pos_part (a -ℤ b) + neg_part a + pos_part b ≡ neg_part (a -ℤ b) + pos_part a + neg_part b
unfolding ◌-ℤ◌
-ℤ_parts a b = ground arith

pub ≤ℤ_antisym : (a b : ℤ) → a ≤ℤ b → b ≤ℤ a → a ≡ b
≤ℤ_antisym a b h k = ground arith

pub max_bounds : (a b : ℤ) → (a ≤ℤ max a b) × (b ≤ℤ max a b) × ((max a b ≤ℤ a) ⊎ (max a b ≤ℤ b))
unfolding max
max_bounds a b = ground arith

pub min_bounds : (a b : ℤ) → (min a b ≤ℤ a) × (min a b ≤ℤ b) × ((a ≤ℤ min a b) ⊎ (b ≤ℤ min a b))
unfolding min
min_bounds a b = ground arith

abbrev negate : ℕ → ℤ
negate zero = pos 0
negate (suc n) = negsuc n

-- The digits at the front of a text.
abbrev digits_of : Text → Text
digits_of [] = []
digits_of (c ∷ s) = if is_digit c then c ∷ digits_of s else []

abbrev signed : Text → ℤ
signed [] = pos 0
signed (c ∷ s) =
    if c == b'-'
    then negate (value (digits_of s))
    else if c == b'+'
    then pos (value (digits_of s))
    else pos (value (digits_of (c ∷ s)))

-- `Number.parseInt(s, 10) || 0`
unfoldable pub parse_int : Text → ℤ
unfolding trim_start
parse_int s = signed (trim_start s)

-- `String(z)`
unfoldable pub int_text : ℤ → Text
int_text (pos n) = to_text n
int_text (negsuc n) = b'-' ∷ to_text (suc n)

digits_of-All : (s : Text) → All IsDigit s → digits_of s ≡ s
digits_of-All [] h = refl
digits_of-All (c ∷ s) h = ground (arith, digits_of-All s h.1)

signed-All : (s : Text) → All IsDigit s → signed s ≡ pos (value s)
signed-All [] h = refl
signed-All (c ∷ s) h = ground (arith, digits_of-All (c ∷ s) h)

trim_start-digit : (s : Text) → All IsDigit s → trim_start s ≡ s
unfolding trim_start
trim_start-digit [] h = refl
trim_start-digit (c ∷ s) h = ground (arith, is_space_between c)

-- The print of an integer is read back.
pub parse_int-int_text : (z : ℤ) → parse_int (int_text z) ≡ z
unfolding parse_int int_text
parse_int-int_text (pos n) =
    rw (trim_start-digit (to_text n) (All-to_text n))
      (signed-All (to_text n) (All-to_text n) ∙ ap pos (value-to_text n))
parse_int-int_text (negsuc n) =
    rw (digits_of-All (to_text (suc n)) (All-to_text (suc n)), value-to_text (suc n)) refl
