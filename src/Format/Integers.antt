-- ===== src/Format/Integers.antt =====
-- frontend/src/format/int.ts.
pub mod Groups
pub mod Laws
use mathlib.Core.Option
use revlm.Base.{
  ℕ, zero, suc, ◌-◌, Bool, true, false, not, ◌&&◌, Option, none, some, [], ◌∷◌, ◌++◌, map, ◌==◌,
  if◌then◌else◌, length, take, drop, Text, is_empty, trim, is_digit,
}

-- `s.slice(a, b)` with `a ≤ b`
abbrev pub slice : Text → ℕ → ℕ → Text
slice s a b = drop a (take b s)

-- `out ? `${chunk},${out}` : chunk`
abbrev pub prepend : Text → Text → Text
prepend chunk [] = chunk
prepend chunk (c ∷ out) = chunk ++ b',' ∷ c ∷ out

-- The loop: `i` falls by three and ends at or below 0. `none` means that the fuel ran out.
unfoldable pub group_from : Text → ℕ → ℕ → Text → Option Text
group_from digits zero i out = none
group_from digits (suc fuel) i out =
    let rest = group_from digits fuel (i - 3) (prepend (slice digits (i - 3) i) out) in
    if i == 0 then some out else rest

-- `out || '0'`
abbrev pub or_zero : Text → Text
or_zero [] = b'0' ∷ []
or_zero (c ∷ s) = c ∷ s

unfoldable pub group_digits_comma : Text → Option Text
unfolding group_from
group_digits_comma digits =
    Option.map or_zero (group_from digits (suc (length digits)) (length digits) [])

unfoldable pub format_int_string_comma : Text → Option Text
unfolding group_digits_comma
format_int_string_comma [] = group_digits_comma []
format_int_string_comma (c ∷ raw) =
    if c == b'-'
    then Option.map (◌∷◌ b'-') (group_digits_comma raw)
    else group_digits_comma (c ∷ raw)

-- `/^-?\d+$/.test(s)`
abbrev pub all_digits : Text → Bool
all_digits [] = true
all_digits (c ∷ s) = is_digit c && all_digits s

abbrev pub is_integer_text : Text → Bool
is_integer_text [] = false
is_integer_text (c ∷ s) =
    if c == b'-' then not (is_empty s) && all_digits s else is_digit c && all_digits s

-- The argument: a number by what it is and its print, a bigint by its print, or a text.
pub data IntInput : Type 0 where
  missing : IntInput
  not_finite : IntInput
  fractional : Text → IntInput
  integral : Text → IntInput
  bigint : Text → IntInput
  text : Text → IntInput

abbrev pub dash : Text
dash = b'-' ∷ []

abbrev pub format_trimmed : Text → Option Text
format_trimmed [] = some dash
format_trimmed (c ∷ s) =
    if is_integer_text (c ∷ s) then format_int_string_comma (c ∷ s) else some (c ∷ s)

unfoldable pub format_int_comma : IntInput → Option Text
unfolding format_int_string_comma
format_int_comma missing = some dash
format_int_comma not_finite = some dash
format_int_comma (fractional print) = some print
format_int_comma (integral print) = format_int_string_comma print
format_int_comma (bigint print) = format_int_string_comma print
format_int_comma (text s) = format_trimmed (trim s)
