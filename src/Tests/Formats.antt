-- ===== src/Tests/Formats.antt =====
-- The formatters of amounts, whole numbers and errors at concrete inputs.
use revlm.Base.{
  Text, codes, ◌≡◌, refl, ◌*◌, ◌^◌, ◌≤◌, ◌<◌, ◌++◌, ◌∷◌, [], true, some, value, length, join,
  sign_text, All, IsDigit, arith, List, trim,
}
use revlm.Format.Money.{
  strip_prefix, drop_zeros, drop_dot, format_usd_plain, format_decimal_plain, format_usd,
}
use revlm.Format.Money.Canonical.{NoZeroEnd, decimal}
use revlm.Format.Money.Amounts.{Amount, IsAmount, amount_text}
use revlm.Format.Integers.{format_int_comma, text, bigint, integral}
use mathlib.Core.List.{flatten}
use revlm.Format.Integers.Groups.{HasThree}
use revlm.Format.Integers.Laws.{format_int_comma-groups}
use revlm.Format.Money.Laws.{IsSigned, format_usd_plain-shortest}

-- -0.500
abbrev half : Amount
half = record { negative = true; first = b'0'; whole = []; fraction = some (codes "500") }

half-IsAmount : IsAmount half
half-IsAmount = record {
  first = (omega arith, omega arith);
  whole = tt;
  fraction =
      ((omega arith, omega arith), ((omega arith, omega arith), ((omega arith, omega arith), tt)));
}

format_usd_plain-shortest_example :
    (g : Text) × IsSigned true (decimal (b'0' ∷ []) g) (format_usd_plain (some (amount_text half)))
    × NoZeroEnd g
    × All IsDigit g
    × (value ((b'0' ∷ []) ++ g) * 10 ^ 3 ≡ value (codes "0500") * 10 ^ length g)
format_usd_plain-shortest_example = format_usd_plain-shortest half half-IsAmount

-- `-$0.5`
format_usd_run : format_usd (codes " -0.500") ≡ codes "-$0.5"
unfolding format_usd format_decimal_plain strip_prefix drop_zeros drop_dot trim
format_usd_run = refl

digits_1234 : All IsDigit (codes "1234")
digits_1234 = (
  (omega arith, omega arith),
  ((omega arith, omega arith), ((omega arith, omega arith), ((omega arith, omega arith), tt))),
)

format_int_comma-groups_example :
    (p : Text) × (ps : List Text) × (format_int_comma (text (codes "-1234"))
      ≡ some (sign_text true ++ join (p ∷ ps) b','))
    × (format_int_comma (bigint (codes "-1234")) ≡ some (sign_text true ++ join (p ∷ ps) b','))
    × (format_int_comma (integral (codes "-1234")) ≡ some (sign_text true ++ join (p ∷ ps) b','))
    × (0 < length p)
    × (length p ≤ 3)
    × HasThree ps
    × (flatten (p ∷ ps) ≡ codes "1234")
format_int_comma-groups_example =
    format_int_comma-groups true b'1' (codes "234") digits_1234.0 digits_1234.1
