-- ===== src/Base/Decimal.antt =====
-- `String(n)` of a natural number, and the number that digits spell.
use Prim.Native.Nat.{ℕ, zero, suc, ◌+◌, ◌-◌, ◌*◌, ◌/◌, ◌%◌, ◌<◌}
use mathlib.Core.Path.{◌≡◌, ap, ◌∙◌, sym}
use mathlib.Core.Logic.{◌≢◌}
use mathlib.Core.Bool.{Bool, true, false}
use mathlib.Core.List.{[], ◌∷◌, foldl}
use native.Mathlib.Omega.{arith}
use revlm.Base.Tests.{ltb, if◌then◌else◌}
use revlm.Base.Lists.{All}
use revlm.Base.Texts.{Text, IsDigit}

-- The number that the digits spell behind `n`.
abbrev pub value_from : ℕ → Text → ℕ
value_from = foldl (λ n c. n * 10 + (c - b'0'))

abbrev pub value : Text → ℕ
value = value_from 0

-- The digits of `n` in front of `out`; each round of the fuel divides `n` by ten.
digits_from : ℕ → ℕ → Text → Text
digits_from zero n out = out
digits_from (suc fuel) n out =
    let rest = digits_from fuel (n / 10) ((b'0' + n % 10) ∷ out) in
    if ltb n 10 then (b'0' + n) ∷ out else rest

unfoldable pub to_text : ℕ → Text
unfolding digits_from
to_text n = digits_from (suc n) n []

value_from-digits_from :
    (fuel n : ℕ) (out : Text) → n < fuel → value (digits_from fuel n out) ≡ value_from n out
unfolding digits_from
value_from-digits_from zero n out h = absurd (omega arith)
value_from-digits_from (suc fuel) n out h = ground (
  arith,
  value_from-digits_from fuel (n / 10) ((b'0' + n % 10) ∷ out),
  ap (λ m. value_from m out) (last_digit n),
)
  where
    last_digit : (n : ℕ) → (n / 10) * 10 + (b'0' + n % 10 - b'0') ≡ n
    last_digit n = omega arith

-- The print of a number reads back as the number.
pub value-to_text : (n : ℕ) → value (to_text n) ≡ n
value-to_text n = unfold to_text in value_from-digits_from (suc n) n [] (omega arith)

-- Two numbers that print alike are the same.
pub to_text-injective : (m n : ℕ) → to_text m ≡ to_text n → m ≡ n
to_text-injective m n e = sym (value-to_text m) ∙ ap value e ∙ value-to_text n

All-digits_from : (fuel n : ℕ) (out : Text) → All IsDigit out → All IsDigit (digits_from fuel n out)
unfolding digits_from
All-digits_from zero n out h = h
All-digits_from (suc fuel) n out h =
    ground (arith, All-digits_from fuel (n / 10) ((b'0' + n % 10) ∷ out))

pub All-to_text : (n : ℕ) → All IsDigit (to_text n)
All-to_text n = unfold to_text in All-digits_from (suc n) n [] tt

digits_from-ne-nil : (fuel n : ℕ) (c : ℕ) (out : Text) → digits_from fuel n (c ∷ out) ≢ []
unfolding digits_from
digits_from-ne-nil zero n c out = cc
digits_from-ne-nil (suc fuel) n c out =
    ground (arith, digits_from-ne-nil fuel (n / 10) (b'0' + n % 10) (c ∷ out))

pub to_text-ne-nil : (n : ℕ) → to_text n ≢ []
unfolding to_text
to_text-ne-nil n = ground (arith, digits_from-ne-nil n (n / 10) (b'0' + n % 10) [])

abbrev pub sign_text : Bool → Text
sign_text true = b'-' ∷ []
sign_text false = []
