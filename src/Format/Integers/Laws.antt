-- ===== src/Format/Integers/Laws.antt =====
-- Whole numbers of every kind of argument.
use mathlib.Core.Option
use mathlib.Core.List.{flatten}
use revlm.Base.{
  sign_text, ℕ, ◌≤◌, ◌<◌, ◌≡◌, refl, ap, ◌∙◌, Bool, true, false, Option, none, some, List, [], ◌∷◌,
  ◌++◌, arith, ◌==◌, length, All, All-imp, Text, is_space_between, join, IsDigit, NoSpace,
  trim_of_NoSpace,
}
use revlm.Format.Integers.{
  group_digits_comma, format_int_string_comma, is_integer_text, all_digits, integral, bigint, text,
  format_trimmed, format_int_comma,
}
use revlm.Format.Integers.Groups.{HasThree, all-Groups, whole_text}

all_digits_lem : (s : Text) → All IsDigit s → all_digits s ≡ true
all_digits_lem [] h = refl
all_digits_lem (c ∷ s) (d, h) = ground (arith, all_digits_lem s h)

NoSpace-integer : (neg : Bool) (s : Text) → All IsDigit s → NoSpace (sign_text neg ++ s)
NoSpace-integer true s h = (
  is_space_between b'-' (omega arith) (omega arith),
  All-imp (λ c d. is_space_between c (omega arith) (omega arith)) s h,
)
NoSpace-integer false s h = All-imp (λ c d. is_space_between c (omega arith) (omega arith)) s h

map_id : (o : Option Text) → o ≡ Option.map (λ t. t) o
map_id none = refl
map_id (some t) = refl

format_string :
    (neg : Bool) (c : ℕ) (s : Text)
    → IsDigit c
    → format_int_string_comma (sign_text neg ++ c ∷ s)
      ≡ Option.map (λ t. sign_text neg ++ t) (group_digits_comma (c ∷ s))
unfolding format_int_string_comma
format_string true c s d = refl
format_string false c s d =
    let other : (c == b'-') ≡ false = ground arith in rw other (map_id (group_digits_comma (c ∷ s)))

is_integer_lem :
    (neg : Bool) (c : ℕ) (s : Text)
    → IsDigit c
    → All IsDigit s
    → is_integer_text (sign_text neg ++ c ∷ s) ≡ true
is_integer_lem true c s d h = all_digits_lem (c ∷ s) (d, h)
is_integer_lem false c s d h = ground (arith, all_digits_lem s h)

format_trimmed_integer :
    (t : Text) → is_integer_text t ≡ true → format_trimmed t ≡ format_int_string_comma t
format_trimmed_integer [] h = cc
format_trimmed_integer (c ∷ t) h = rw h

format_text :
    (neg : Bool) (c : ℕ) (s : Text)
    → IsDigit c
    → All IsDigit s
    → format_int_comma (text (sign_text neg ++ c ∷ s))
      ≡ format_int_string_comma (sign_text neg ++ c ∷ s)
unfolding format_int_comma
format_text neg c s d h =
    rw (trim_of_NoSpace (sign_text neg ++ c ∷ s) (NoSpace-integer neg (c ∷ s) (d, h)))
      (format_trimmed_integer (sign_text neg ++ c ∷ s) (is_integer_lem neg c s d h))

-- A whole number, however it arrives (as a text, a bigint, or a number with these digits), is
-- printed with its sign and its digits in groups behind commas: the first group of one to three
-- digits, the others of three, and together the digits in order. The loop ends within its fuel.
pub format_int_comma-groups :
    (neg : Bool) (c : ℕ) (s : Text)
    → IsDigit c
    → All IsDigit s
    → (p : Text) × (ps : List Text) × (format_int_comma (text (sign_text neg ++ c ∷ s))
        ≡ some (sign_text neg ++ join (p ∷ ps) b','))
      × (format_int_comma (bigint (sign_text neg ++ c ∷ s))
          ≡ some (sign_text neg ++ join (p ∷ ps) b','))
      × (format_int_comma (integral (sign_text neg ++ c ∷ s))
          ≡ some (sign_text neg ++ join (p ∷ ps) b','))
      × (0 < length p)
      × (length p ≤ 3)
      × HasThree ps
      × (flatten (p ∷ ps) ≡ c ∷ s)
format_int_comma-groups neg c s d h =
    let g = all-Groups (c ∷ s) (omega arith) in
    let printed : format_int_string_comma (sign_text neg ++ c ∷ s)
        ≡ some (sign_text neg ++ join (g.head ∷ g.tail) b',') =
      format_string neg c s d ∙ ap (Option.map (λ t. sign_text neg ++ t)) g.printed in
    (
      g.head,
      g.tail,
      format_text neg c s d h ∙ printed,
      unfold format_int_comma in printed,
      unfold format_int_comma in printed,
      g.head_pos,
      g.head_le,
      g.three,
      whole_text g,
    )
