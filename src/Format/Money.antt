-- ===== src/Format/Money.antt =====
-- frontend/src/format/money.ts, and `formatDecimalPlain` and `formatUSD` of
-- frontend/src/pages/usage/usageUtils.ts and of frontend/src/pages/admin/usage/usageAdminUtils.ts.
-- An argument that is a number stands as the text that `String` makes of it; null and undefined are
-- `none`.
pub mod Canonical
pub mod Amounts
pub mod Laws
use revlm.Base.{
  ℕ, ◌||◌, Option, some, [], ◌∷◌, ◌++◌, ◌==◌, if◌then◌else◌, or_else, Text, text_eq, is_empty, trim,
  includes_char,
}

pub record Normalized : Type 0 where
  pub sign : Text
  pub value : Text

abbrev zero_text : Text
zero_text = b'0' ∷ []

-- `if (s.startsWith(c)) s = s.slice(1).trim()`
unfoldable pub strip_prefix : ℕ → Text → Text
strip_prefix c [] = []
strip_prefix c (d ∷ s) = if d == c then trim s else d ∷ s

-- What is left behind the sign: nothing but a sign reads as zero.
abbrev pub normalized : Text → Text → Normalized
normalized sign [] = record { sign = []; value = zero_text }
normalized sign (c ∷ s) = record { sign = sign; value = c ∷ s }

abbrev pub read_sign : Text → Normalized
read_sign [] = normalized [] []
read_sign (c ∷ s) =
    if c == b'-'
    then normalized (b'-' ∷ []) (trim s)
    else if c == b'+'
    then normalized [] (trim s)
    else normalized [] (c ∷ s)

unfoldable pub normalize_decimal_string : Text → Normalized
normalize_decimal_string raw = read_sign (strip_prefix b'$' (trim raw))

-- `s.replace(/0+$/, '')`
abbrev pub hold_digit : ℕ → Text → Text
hold_digit c [] = if c == b'0' then [] else c ∷ []
hold_digit c (d ∷ r) = c ∷ d ∷ r

unfoldable pub drop_zeros : Text → Text
drop_zeros [] = []
drop_zeros (c ∷ s) = hold_digit c (drop_zeros s)

-- `s.replace(/\.$/, '')`
unfoldable pub drop_dot : Text → Text
drop_dot [] = []
drop_dot (c ∷ []) = if c == b'.' then [] else c ∷ []
drop_dot (c ∷ d ∷ s) = c ∷ drop_dot (d ∷ s)

abbrev pub shorten : Text → Text
shorten s = if includes_char s b'.' then drop_dot (drop_zeros s) else s

-- `s || '0'`
abbrev pub or_zero : Text → Text
or_zero [] = zero_text
or_zero (c ∷ s) = c ∷ s

unfoldable pub trim_trailing_zeros : Text → Text
trim_trailing_zeros raw = or_zero (shorten raw)

abbrev pub with_sign : Text → Text → Text
with_sign sign cleaned = if text_eq cleaned zero_text then zero_text else sign ++ cleaned

unfoldable pub format_usd_plain : Option Text → Text
unfolding normalize_decimal_string trim_trailing_zeros
format_usd_plain v =
    let n = normalize_decimal_string (or_else v []) in
    with_sign n.sign (trim_trailing_zeros n.value)

-- The last test of `formatDecimalPlain`.
abbrev pub or_plain_zero : Text → Text
or_plain_zero s = if text_eq s (b'-' ∷ b'0' ∷ []) || is_empty s then zero_text else s

abbrev plain_body : Text → Text
plain_body [] = zero_text
plain_body (c ∷ s) = or_plain_zero (shorten (c ∷ s))

abbrev pub plain_prefixes : Text → Text
plain_prefixes [] = zero_text
plain_prefixes (c ∷ s) = plain_body (strip_prefix b'$' (strip_prefix b'+' (c ∷ s)))

unfoldable pub format_decimal_plain : Option Text → Text
format_decimal_plain raw = plain_prefixes (trim (or_else raw []))

-- The dollar sign goes behind the minus.
abbrev with_dollar : Text → Text
with_dollar [] = b'$' ∷ []
with_dollar (c ∷ s) = if c == b'-' then b'-' ∷ b'$' ∷ s else b'$' ∷ c ∷ s

unfoldable pub format_usd : Text → Text
unfolding format_decimal_plain
format_usd raw = with_dollar (format_decimal_plain (some raw))
