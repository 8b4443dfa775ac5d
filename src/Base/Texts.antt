-- ===== src/Base/Texts.antt =====
-- A text of the program is the list of its UTF-16 units; the texts that the source writes out have
-- one unit to a character. What follows are the methods of `String.prototype` that the source calls.
use Prim.Native.Nat.{ℕ, ◌≤◌}
use Prim.Native.Char.{code}
use Prim.Native.String.{String}
use mathlib.Core.Path.{◌≡◌, refl}
use mathlib.Core.Logic.{◌≢◌, ◌↔◌}
use mathlib.Core.Bool.{Bool, true, false, ◌&&◌, ◌||◌}
use mathlib.Core.List.{List, [], ◌∷◌, ◌++◌}
use native.Mathlib.Omega.{arith}
use revlm.Base.Tests.{if◌then◌else◌, ◌==◌, leb}
use revlm.Base.Lists.{All}

abbrev pub Text : Type 0
Text = List ℕ

abbrev pub codes : String → Text
codes String.[] = []
codes (String.◌∷◌ c s) = code c ∷ codes s

-- `a === b`
abbrev pub text_eq : Text → Text → Bool
text_eq [] [] = true
text_eq [] (d ∷ t) = false
text_eq (c ∷ s) [] = false
text_eq (c ∷ s) (d ∷ t) = (c == d) && text_eq s t

pub text_eq_iff : (s t : Text) → (text_eq s t ≡ true) ↔ (s ≡ t)
text_eq_iff [] [] = ground arith
text_eq_iff [] (d ∷ t) = ground arith
text_eq_iff (c ∷ s) [] = ground arith
text_eq_iff (c ∷ s) (d ∷ t) = ground (arith, text_eq_iff s t)

pub text_eq_refl : (s : Text) → text_eq s s ≡ true
text_eq_refl s = (text_eq_iff s s).1 refl

-- `!s`, for a text
abbrev pub is_empty : Text → Bool
is_empty [] = true
is_empty (c ∷ s) = false

-- The characters that `trim` removes: WhiteSpace and LineTerminator of the language.
unfoldable pub is_space : ℕ → Bool
is_space c =
    (leb 9 c && leb c 13)
    || (c == 32)
    || (c == 160)
    || (c == 0x1680)
    || (leb 0x2000 c && leb c 0x200a)
    || (c == 0x2028)
    || (c == 0x2029)
    || (c == 0x202f)
    || (c == 0x205f)
    || (c == 0x3000)
    || (c == 0xfeff)

pub is_space_between : (c : ℕ) → 33 ≤ c → c ≤ 126 → is_space c ≡ false
unfolding is_space
is_space_between c h k = ground arith

unfoldable pub trim_start : Text → Text
unfolding is_space
trim_start [] = []
trim_start (c ∷ s) = if is_space c then trim_start s else c ∷ s

-- A character in front of what is left of the characters behind it.
abbrev pub hold : ℕ → Text → Text
hold c [] = if is_space c then [] else c ∷ []
hold c (d ∷ r) = c ∷ d ∷ r

unfoldable pub trim_end : Text → Text
unfolding is_space
trim_end [] = []
trim_end (c ∷ s) = hold c (trim_end s)

unfoldable pub trim : Text → Text
unfolding trim_start trim_end
trim s = trim_end (trim_start s)

-- `s.startsWith(p)`
abbrev pub starts_with : Text → Text → Bool
starts_with s [] = true
starts_with [] (d ∷ p) = false
starts_with (c ∷ s) (d ∷ p) = (c == d) && starts_with s p

-- `s.includes(p)`
abbrev pub includes : Text → Text → Bool
includes [] p = starts_with [] p
includes (c ∷ s) p = starts_with (c ∷ s) p || includes s p

-- `s.includes(…)` of one character
abbrev pub includes_char : Text → ℕ → Bool
includes_char [] d = false
includes_char (c ∷ s) d = (c == d) || includes_char s d

-- `s.split(…)` at one character
abbrev pub split_step : ℕ → ℕ → List Text → List Text
split_step sep c [] = (c ∷ []) ∷ []
split_step sep c (p ∷ ps) = if c == sep then [] ∷ p ∷ ps else (c ∷ p) ∷ ps

abbrev pub split : Text → ℕ → List Text
split [] sep = [] ∷ []
split (c ∷ s) sep = split_step sep c (split s sep)

-- `ps.join(…)` with one character
abbrev pub join : List Text → ℕ → Text
join [] sep = []
join (p ∷ []) sep = p
join (p ∷ q ∷ ps) sep = p ++ sep ∷ join (q ∷ ps) sep

abbrev pub Lacks : ℕ → Text → Type 0
Lacks b = All (λ c. c ≢ b)

-- The code points of the decimal digits.
abbrev pub IsDigit : ℕ → Type 0
IsDigit c = (b'0' ≤ c) × (c ≤ b'9')

abbrev pub is_digit : ℕ → Bool
is_digit c = leb b'0' c && leb c b'9'
