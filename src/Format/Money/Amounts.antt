-- ===== src/Format/Money/Amounts.antt =====
-- The decimal texts that the server sends, an optional minus, digits, and at most one point with
-- digits behind it, and what each step of the formatters makes of them.
use revlm.Base.{
  sign_text, ℕ, ◌≡◌, refl, sym, ap, ◌∙◌, ◌≢◌, Bool, true, false, Option, none, some, [], ◌∷◌, ◌++◌,
  append_assoc, arith, or_else, All, All-append, All-imp, Text, is_space, is_space_between,
  includes_char, Lacks, IsDigit, NoSpace, trim_of_NoSpace,
}
use revlm.Format.Money.{
  strip_prefix, normalized, read_sign, normalize_decimal_string, drop_zeros, shorten, or_zero,
  trim_trailing_zeros, with_sign, format_usd_plain, or_plain_zero, plain_prefixes,
  format_decimal_plain,
}
use revlm.Format.Money.Canonical.{decimal, All-drop_zeros, drop_zeros-append, drop_dot-decimal}

-- `first` is the first digit and `whole` the others in front of the point.
pub record Amount : Type 0 where
  pub negative : Bool
  pub first : ℕ
  pub whole : Text
  pub fraction : Option Text

pub record IsAmount (a : Amount) : Type 0 where
  pub first : IsDigit a.first
  pub whole : All IsDigit a.whole
  pub fraction : All IsDigit (or_else a.fraction [])

abbrev pub body_text : Text → Option Text → Text
body_text i none = i
body_text i (some f) = i ++ b'.' ∷ f

abbrev pub amount_text : Amount → Text
amount_text a = sign_text a.negative ++ body_text (a.first ∷ a.whole) a.fraction

-- The digits of `f` that count.
abbrev pub kept_fraction : Option Text → Text
kept_fraction none = []
kept_fraction (some f) = drop_zeros f

NoSpace-digits : (s : Text) → All IsDigit s → NoSpace s
NoSpace-digits s h = All-imp (λ c d. is_space_between c (omega arith) (omega arith)) s h

NoSpace-body :
    (i : Text) (o : Option Text)
    → All IsDigit i
    → All IsDigit (or_else o [])
    → NoSpace (body_text i o)
NoSpace-body i none h k = NoSpace-digits i h
NoSpace-body i (some f) h k =
    All-append (λ c. is_space c ≡ false) i (b'.' ∷ f) (NoSpace-digits i h)
      (is_space_between b'.' (omega arith) (omega arith), NoSpace-digits f k)

Lacks-digits : (s : Text) → All IsDigit s → Lacks b'.' s
Lacks-digits s h = All-imp (λ c d. omega arith) s h

includes_char_of_Lacks : (d : ℕ) (s : Text) → Lacks d s → includes_char s d ≡ false
includes_char_of_Lacks d [] h = refl
includes_char_of_Lacks d (c ∷ s) (p, h) = ground (arith, includes_char_of_Lacks d s h)

includes_char-append : (d : ℕ) (s t : Text) → includes_char (s ++ d ∷ t) d ≡ true
includes_char-append d [] t = ground arith
includes_char-append d (c ∷ s) t = ground (arith, includes_char-append d s t)

shorten-point : (i f : Text) → All IsDigit f → shorten (i ++ b'.' ∷ f) ≡ decimal i (drop_zeros f)
shorten-point i f h =
    rw (includes_char-append b'.' i f, drop_zeros-append i f)
      (drop_dot-decimal i (drop_zeros f) (Lacks-digits _ (All-drop_zeros IsDigit f h)))

shorten-digits : (i : Text) → Lacks b'.' i → shorten i ≡ i
shorten-digits i h = rw (includes_char_of_Lacks b'.' i h)

-- `shorten` under a sign: nothing in front of the point changes.
shorten-body :
    (i : Text) (o : Option Text)
    → Lacks b'.' i
    → All IsDigit (or_else o [])
    → shorten (body_text i o) ≡ decimal i (kept_fraction o)
shorten-body i none h k = shorten-digits i h
shorten-body i (some f) h k = shorten-point i f k

decimal_first : (c : ℕ) (i g : Text) → (r : Text) × (decimal (c ∷ i) g ≡ c ∷ r)
decimal_first c i [] = (i, refl)
decimal_first c i (d ∷ g) = (i ++ b'.' ∷ d ∷ g, refl)

body_first : (c : ℕ) (i : Text) (o : Option Text) → (r : Text) × (body_text (c ∷ i) o ≡ c ∷ r)
body_first c i none = (i, refl)
body_first c i (some f) = (i ++ b'.' ∷ f, refl)

strip_prefix_other : (c d : ℕ) (s : Text) → d ≢ c → strip_prefix c (d ∷ s) ≡ d ∷ s
unfolding strip_prefix
strip_prefix_other c d s h = ground arith

read_sign_digit : (c : ℕ) (s : Text) → IsDigit c → read_sign (c ∷ s) ≡ normalized [] (c ∷ s)
read_sign_digit c s d = ground arith

normalize_signed :
    (neg : Bool) (c : ℕ) (s : Text)
    → IsDigit c
    → NoSpace (c ∷ s)
    → normalize_decimal_string (sign_text neg ++ c ∷ s)
      ≡ record { sign = sign_text neg; value = c ∷ s }
unfolding normalize_decimal_string
normalize_signed true c s d h =
    rw (trim_of_NoSpace (b'-' ∷ c ∷ s) (is_space_between b'-' (omega arith) (omega arith), h))
      (rw (strip_prefix_other b'$' b'-' (c ∷ s) (omega arith), trim_of_NoSpace (c ∷ s) h))
normalize_signed false c s d h =
    rw (trim_of_NoSpace (c ∷ s) h, strip_prefix_other b'$' c s (omega arith))
      (read_sign_digit c s d)

or_plain_zero-sign :
    (neg : Bool) (c : ℕ) (s : Text)
    → IsDigit c
    → or_plain_zero (sign_text neg ++ c ∷ s) ≡ with_sign (sign_text neg) (c ∷ s)
or_plain_zero-sign true c [] d = ground arith
or_plain_zero-sign true c (e ∷ s) d = ground arith
or_plain_zero-sign false c [] d = ground arith
or_plain_zero-sign false c (e ∷ s) d = ground arith

decimal-sign :
    (neg : Bool) (c : ℕ) (i g : Text)
    → decimal (sign_text neg ++ c ∷ i) g ≡ sign_text neg ++ decimal (c ∷ i) g
decimal-sign neg c i [] = refl
decimal-sign neg c i (d ∷ g) = append_assoc (sign_text neg) (c ∷ i) (b'.' ∷ d ∷ g)

body-sign :
    (neg : Bool) (i : Text) (o : Option Text)
    → sign_text neg ++ body_text i o ≡ body_text (sign_text neg ++ i) o
body-sign neg i none = refl
body-sign neg i (some f) = sym (append_assoc (sign_text neg) i (b'.' ∷ f))

or_zero-decimal : (c : ℕ) (i g : Text) → or_zero (decimal (c ∷ i) g) ≡ decimal (c ∷ i) g
or_zero-decimal c i [] = refl
or_zero-decimal c i (d ∷ g) = refl

trim_trailing_zeros-body :
    (c : ℕ) (i : Text) (o : Option Text)
    → Lacks b'.' (c ∷ i)
    → All IsDigit (or_else o [])
    → trim_trailing_zeros (body_text (c ∷ i) o) ≡ decimal (c ∷ i) (kept_fraction o)
unfolding trim_trailing_zeros
trim_trailing_zeros-body c i o h k =
    rw (shorten-body (c ∷ i) o h k) (or_zero-decimal c i (kept_fraction o))

plain_prefixes-signed :
    (neg : Bool) (c : ℕ) (r : Text)
    → IsDigit c
    → plain_prefixes (sign_text neg ++ c ∷ r) ≡ or_plain_zero (shorten (sign_text neg ++ c ∷ r))
plain_prefixes-signed true c r d = rw (
  strip_prefix_other b'+' b'-' (c ∷ r) (omega arith),
  strip_prefix_other b'$' b'-' (c ∷ r) (omega arith),
)
plain_prefixes-signed false c r d =
    rw (strip_prefix_other b'+' c r (omega arith), strip_prefix_other b'$' c r (omega arith))

NoSpace-signed : (neg : Bool) (s : Text) → NoSpace s → NoSpace (sign_text neg ++ s)
NoSpace-signed true s h = (is_space_between b'-' (omega arith) (omega arith), h)
NoSpace-signed false s h = h

Lacks-signed : (neg : Bool) (s : Text) → Lacks b'.' s → Lacks b'.' (sign_text neg ++ s)
Lacks-signed true s h = (omega arith, h)
Lacks-signed false s h = h

module _ (a : Amount) (v : IsAmount a) where
  -- The digits in front of the point, the point and the digits behind it that count.
  unfoldable pub kept : Text
  kept = decimal (a.first ∷ a.whole) (kept_fraction a.fraction)

  whole_digits : All IsDigit (a.first ∷ a.whole)
  whole_digits = (v.first, v.whole)

  NoSpace-amount_body : NoSpace (body_text (a.first ∷ a.whole) a.fraction)
  NoSpace-amount_body = NoSpace-body (a.first ∷ a.whole) a.fraction whole_digits v.fraction

  normalize-amount :
      normalize_decimal_string (amount_text a)
      ≡ record { sign = sign_text a.negative; value = body_text (a.first ∷ a.whole) a.fraction }
  normalize-amount =
      let (r, e) = body_first a.first a.whole a.fraction in
      rw e (normalize_signed a.negative a.first r v.first (rw e at NoSpace-amount_body))

  pub format_usd_plain-kept :
      format_usd_plain (some (amount_text a)) ≡ with_sign (sign_text a.negative) kept
  unfolding format_usd_plain kept
  format_usd_plain-kept =
      ap (λ n. with_sign n.sign (trim_trailing_zeros n.value)) normalize-amount
      ∙ ap (with_sign (sign_text a.negative)) (
          trim_trailing_zeros-body a.first a.whole a.fraction
            (Lacks-digits (a.first ∷ a.whole) whole_digits) v.fraction)

  plain_prefixes-amount : plain_prefixes (amount_text a) ≡ or_plain_zero (shorten (amount_text a))
  plain_prefixes-amount =
      let (r, e) = body_first a.first a.whole a.fraction in
      rw e (plain_prefixes-signed a.negative a.first r v.first)

  shorten-amount : shorten (amount_text a) ≡ sign_text a.negative ++ kept
  unfolding kept
  shorten-amount =
      ap shorten (body-sign a.negative (a.first ∷ a.whole) a.fraction)
      ∙ shorten-body (sign_text a.negative ++ a.first ∷ a.whole) a.fraction
          (Lacks-signed a.negative (a.first ∷ a.whole)
            (Lacks-digits (a.first ∷ a.whole) whole_digits))
          v.fraction
      ∙ decimal-sign a.negative a.first a.whole (kept_fraction a.fraction)

  or_plain_zero-kept :
      or_plain_zero (sign_text a.negative ++ kept) ≡ with_sign (sign_text a.negative) kept
  unfolding kept
  or_plain_zero-kept =
      let (r, e) = decimal_first a.first a.whole (kept_fraction a.fraction) in
      rw e (or_plain_zero-sign a.negative a.first r v.first)

  pub format_decimal_plain-kept :
      format_decimal_plain (some (amount_text a)) ≡ with_sign (sign_text a.negative) kept
  unfolding format_decimal_plain
  format_decimal_plain-kept =
      ap plain_prefixes
        (trim_of_NoSpace (amount_text a) (NoSpace-signed a.negative _ NoSpace-amount_body))
      ∙ plain_prefixes-amount
      ∙ ap or_plain_zero shorten-amount
      ∙ or_plain_zero-kept
