-- ===== src/Format/Money/Laws.antt =====
-- The printed amounts.
use mathlib.Core.List.{foldl-append}
use revlm.Base.{
  sign_text, ℕ, ◌*◌, ◌^◌, ◌≡◌, refl, sym, subst, ap, ◌∙◌, ◌≢◌, inl, inr, Bool, true, false, Option,
  none, some, [], ◌∷◌, ◌++◌, arith, Bool-cases, or_else, length, All, Text, text_eq, text_eq_iff,
  trim, IsDigit, value,
}
use revlm.Format.Money.{
  zero_text, strip_prefix, drop_zeros, with_sign, format_usd_plain, format_decimal_plain,
  hold_digit,
}
use revlm.Format.Money.Canonical.{
  NoZeroEnd, decimal, NoZeroEnd-drop_zeros, All-drop_zeros, drop_zeros-value,
}
use revlm.Format.Money.Amounts.{
  Amount, IsAmount, amount_text, kept_fraction, kept, format_usd_plain-kept,
  format_decimal_plain-kept,
}

kept_fraction-shortest :
    (i : Text) (o : Option Text)
    → All IsDigit (or_else o [])
    → NoZeroEnd (kept_fraction o)
      × All IsDigit (kept_fraction o)
      × (value (i ++ kept_fraction o) * 10 ^ length (or_else o [])
          ≡ value (i ++ or_else o []) * 10 ^ length (kept_fraction o))
kept_fraction-shortest i none h = (tt, tt, refl)
kept_fraction-shortest i (some f) h = (
  NoZeroEnd-drop_zeros f,
  All-drop_zeros IsDigit f h,
  rw (foldl-append {B = ℕ} _ 0 i (drop_zeros f), foldl-append {B = ℕ} _ 0 i f)
      (drop_zeros-value (value i) f h),
)

-- A print of an amount from that of its absolute value: a minus stands in front of all negative
-- amounts but 0.
abbrev pub IsSigned : Bool → Text → Text → Type 0
IsSigned negative body out =
    (negative ≡ true → body ≢ b'0' ∷ [] → out ≡ b'-' ∷ body)
    × (negative ≡ false → out ≡ body)
    × (body ≡ b'0' ∷ [] → out ≡ body)

with_sign-IsSigned :
    (negative : Bool) (body : Text) → IsSigned negative body (with_sign (sign_text negative) body)
with_sign-IsSigned negative body = elim (Bool-cases (text_eq body zero_text)) [
  | inl zero ↦ rw zero (
    λ n other. absurd (other ((text_eq_iff body zero_text).0 zero)),
    λ n. sym ((text_eq_iff body zero_text).0 zero),
    λ z. sym z,
  )
  | inr other ↦ rw other (
    λ n k. rw n refl,
    λ n. rw n refl,
    λ z. absurd (let e = (text_eq_iff body zero_text).1 z in cc),
  )
]

-- The amount is printed with its whole part as it is and the shortest fraction `g`: digits that end
-- in no zero, with no point if there are none, and the same number as the fraction of the input. A
-- minus stands in front if the amount is negative, unless what is left is 0 alone.
pub format_usd_plain-shortest :
    (a : Amount)
    → IsAmount a
    → (g : Text) × IsSigned a.negative
        (decimal (a.first ∷ a.whole) g)
        (format_usd_plain (some (amount_text a)))
      × NoZeroEnd g
      × All IsDigit g
      × (value ((a.first ∷ a.whole) ++ g) * 10 ^ length (or_else a.fraction [])
          ≡ value ((a.first ∷ a.whole) ++ or_else a.fraction []) * 10 ^ length g)
unfolding kept
format_usd_plain-shortest a v =
    let (ends, digits, same) = kept_fraction-shortest (a.first ∷ a.whole) a.fraction v.fraction in
    (
      kept_fraction a.fraction,
      subst (IsSigned a.negative (kept a v)) (sym (format_usd_plain-kept a v))
          (with_sign-IsSigned a.negative (kept a v)),
      ends,
      digits,
      same,
    )

-- The two formatters, of the money module and of the usage pages, agree on every decimal amount.
pub format_decimal_plain-eq :
    (a : Amount)
    → IsAmount a
    → format_decimal_plain (some (amount_text a)) ≡ format_usd_plain (some (amount_text a))
format_decimal_plain-eq a v = format_decimal_plain-kept a v ∙ sym (format_usd_plain-kept a v)

drop_zeros_of_NoZeroEnd : (g : Text) → NoZeroEnd g → drop_zeros g ≡ g
unfolding drop_zeros
drop_zeros_of_NoZeroEnd [] h = refl
drop_zeros_of_NoZeroEnd (c ∷ []) h = ground arith
drop_zeros_of_NoZeroEnd (c ∷ d ∷ g) h = ap (hold_digit c) (drop_zeros_of_NoZeroEnd (d ∷ g) h)

-- No fraction where no digit is left.
abbrev fraction_of : Text → Option Text
fraction_of [] = none
fraction_of (c ∷ g) = some (c ∷ g)

abbrev shortened : Amount → Amount
shortened a = record a { fraction = fraction_of (kept_fraction a.fraction) }

kept_fraction-NoZeroEnd : (o : Option Text) → NoZeroEnd (kept_fraction o)
kept_fraction-NoZeroEnd none = tt
kept_fraction-NoZeroEnd (some f) = NoZeroEnd-drop_zeros f

All-fraction_of : (g : Text) → All IsDigit g → All IsDigit (or_else (fraction_of g) [])
All-fraction_of [] h = tt
All-fraction_of (c ∷ g) h = h

kept_fraction-fraction_of : (g : Text) → NoZeroEnd g → kept_fraction (fraction_of g) ≡ g
kept_fraction-fraction_of [] h = refl
kept_fraction-fraction_of (c ∷ g) h = drop_zeros_of_NoZeroEnd (c ∷ g) h

body_of_fraction :
    (neg : Bool) (c : ℕ) (i g : Text)
    → amount_text (record { negative = neg; first = c; whole = i; fraction = fraction_of g })
      ≡ sign_text neg ++ decimal (c ∷ i) g
body_of_fraction neg c i [] = refl
body_of_fraction neg c i (d ∷ g) = refl

module _ (a : Amount) (v : IsAmount a) where
  shortened-IsAmount : IsAmount (shortened a)
  shortened-IsAmount = record {
    first = v.first;
    whole = v.whole;
    fraction =
        All-fraction_of (kept_fraction a.fraction)
          (kept_fraction-shortest [] a.fraction v.fraction).1;
  }

  kept-shortened : kept (shortened a) shortened-IsAmount ≡ kept a v
  unfolding kept
  kept-shortened =
      ap (decimal (a.first ∷ a.whole))
        (kept_fraction-fraction_of (kept_fraction a.fraction) (kept_fraction-NoZeroEnd a.fraction))

  text-shortened : amount_text (shortened a) ≡ sign_text a.negative ++ kept a v
  unfolding kept
  text-shortened = body_of_fraction a.negative a.first a.whole (kept_fraction a.fraction)

  format_usd_plain-signed :
      format_usd_plain (some (sign_text a.negative ++ kept a v))
      ≡ with_sign (sign_text a.negative) (kept a v)
  format_usd_plain-signed =
      ap (λ t. format_usd_plain (some t)) (sym text-shortened)
      ∙ format_usd_plain-kept (shortened a) shortened-IsAmount
      ∙ ap (with_sign (sign_text a.negative)) kept-shortened

format_usd_plain-zero : format_usd_plain (some zero_text) ≡ zero_text
unfolding format_usd_plain strip_prefix trim
format_usd_plain-zero = refl

with_sign_again :
    (sign t : Text)
    → format_usd_plain (some (sign ++ t)) ≡ with_sign sign t
    → format_usd_plain (some (with_sign sign t)) ≡ with_sign sign t
with_sign_again sign t e = elim (Bool-cases (text_eq t zero_text)) [
  | inl is_zero ↦ rw is_zero format_usd_plain-zero
  | inr other ↦ rw other (rw other at e)
]

-- Formatting a formatted amount again changes nothing.
pub format_usd_plain_idem :
    (a : Amount)
    → IsAmount a
    → format_usd_plain (some (format_usd_plain (some (amount_text a))))
      ≡ format_usd_plain (some (amount_text a))
format_usd_plain_idem a v =
    rw (format_usd_plain-kept a v)
      (with_sign_again (sign_text a.negative) (kept a v) (format_usd_plain-signed a v))
