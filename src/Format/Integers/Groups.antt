-- ===== src/Format/Integers/Groups.antt =====
-- The loop of `groupDigitsComma`: digits in groups of three.
use native.Mathlib.Decide.{dec_le}
use mathlib.Core.Option
use mathlib.Core.List.{flatten}
use revlm.Base.{
  ℕ, zero, suc, ◌-◌, ◌≤◌, ◌<◌, ◌≡◌, refl, sym, ap, ◌∙◌, false, Option, some, List, [], ◌∷◌, ◌++◌,
  append-nil, append_assoc, arith, ◌==◌, length, take, drop, All, Text, join,
}
use revlm.Format.Integers.{slice, prepend, group_from, or_zero, group_digits_comma}

abbrev pub HasThree : List Text → Type 0
HasThree = All (λ p. length p ≡ 3)

take-drop : (n : ℕ) (s : Text) → take n s ++ drop n s ≡ s
take-drop zero s = refl
take-drop (suc n) [] = refl
take-drop (suc n) (c ∷ s) = ap (◌∷◌ c) (take-drop n s)

take-take : (m n : ℕ) (s : Text) → m ≤ n → take m (take n s) ≡ take m s
take-take zero n s h = refl
take-take (suc m) zero s h = absurd (omega arith)
take-take (suc m) (suc n) [] h = refl
take-take (suc m) (suc n) (c ∷ s) h = ap (◌∷◌ c) (take-take m n s (omega arith))

length-take : (n : ℕ) (s : Text) → n ≤ length s → length (take n s) ≡ n
length-take zero s h = refl
length-take (suc n) [] h = absurd (omega arith)
length-take (suc n) (c ∷ s) h = omega (arith, length-take n s (omega arith))

length-drop : (n : ℕ) (s : Text) → length (drop n s) ≡ length s - n
length-drop zero s = omega arith
length-drop (suc n) [] = omega arith
length-drop (suc n) (c ∷ s) = omega (arith, length-drop n s)

-- A prefix is the prefix that is three shorter, and the slice between them.
take-slice : (m i : ℕ) (s : Text) → m ≤ i → take m s ++ slice s m i ≡ take i s
take-slice m i s h =
    ap (λ t. t ++ drop m (take i s)) (sym (take-take m i s h)) ∙ take-drop m (take i s)

length-slice : (m i : ℕ) (s : Text) → i ≤ length s → length (slice s m i) ≡ i - m
length-slice m i s h = omega (arith, length-drop m (take i s), length-take i s h)

prepend-join :
    (chunk : Text) (ps : List Text)
    → HasThree ps
    → prepend chunk (join ps b',') ≡ join (chunk ∷ ps) b','
prepend-join chunk [] h = refl
prepend-join chunk ([] ∷ ps) (p, h) = absurd (omega arith)
prepend-join chunk ((c ∷ q) ∷ []) h = refl
prepend-join chunk ((c ∷ q) ∷ r ∷ ps) h = refl

-- The groups that the loop makes of the first `i` digits, in front of those that it has made.
pub record Groups (digits : Text) (ps : List Text) (out : Option Text) : Type 0 where
  pub head : Text
  pub tail : List Text
  pub printed : out ≡ some (join (head ∷ tail) b',')
  pub head_pos : 0 < length head
  pub head_le : length head ≤ 3
  pub three : HasThree tail
  pub whole : flatten (head ∷ tail) ≡ digits ++ flatten ps

group_from_end :
    (digits : Text) (fuel : ℕ) (out : Text) → 0 < fuel → group_from digits fuel 0 out ≡ some out
unfolding group_from
group_from_end digits zero out h = absurd (omega arith)
group_from_end digits (suc fuel) out h = refl

module _ (digits : Text) where
  last_group :
      (fuel i : ℕ) (ps : List Text)
      → 0 < fuel
      → 0 < i
      → i ≤ length digits
      → i ≤ 3
      → HasThree ps
      → Groups
          (take i digits)
          ps
          (group_from digits fuel (i - 3) (prepend (slice digits (i - 3) i) (join ps b',')))
  last_group fuel i ps pos_fuel pos le small h =
      let none_left : i - 3 ≡ 0 = omega arith in
      let same = length-take i digits le in
      rw none_left (record {
        head = take i digits;
        tail = ps;
        printed =
            group_from_end digits fuel _ pos_fuel ∙ ap some (prepend-join (take i digits) ps h);
        head_pos = omega arith;
        head_le = omega arith;
        three = h;
        whole = unfold flatten in refl;
      })

  more-Groups :
      (i : ℕ) (ps : List Text) {out : Option Text}
      → 3 < i
      → Groups (take (i - 3) digits) (slice digits (i - 3) i ∷ ps) out
      → Groups (take i digits) ps out
  unfolding flatten
  more-Groups i ps large g = record {
    head = g.head;
    tail = g.tail;
    printed = g.printed;
    head_pos = g.head_pos;
    head_le = g.head_le;
    three = g.three;
    whole =
        g.whole
        ∙ sym (append_assoc (take (i - 3) digits) (slice digits (i - 3) i) (flatten ps))
        ∙ ap (λ t. t ++ flatten ps) (take-slice (i - 3) i digits (omega arith));
  }

  -- The loop ends within its fuel, and makes the groups.
  group_from-Groups :
      (fuel i : ℕ) (ps : List Text)
      → i < fuel
      → 0 < i
      → i ≤ length digits
      → HasThree ps
      → Groups (take i digits) ps (group_from digits fuel i (join ps b','))
  unfolding group_from
  group_from-Groups zero i ps lt pos le h = absurd (omega arith)
  group_from-Groups (suc fuel) i ps lt pos le h =
      let running : (i == 0) ≡ false = ground arith in
      let chunk = slice digits (i - 3) i in
      rw running (elim (dec_le i 3) [
        | yes small ↦ last_group fuel i ps (omega arith) pos le small h
        | no large ↦
            let three : length chunk ≡ 3 = omega (arith, length-slice (i - 3) i digits le) in
            more-Groups i ps (omega arith) (
              rw (prepend-join chunk ps h) (
                group_from-Groups fuel (i - 3) (chunk ∷ ps) (omega arith) (omega arith)
                  (omega arith) (three, h)))
      ])

take-length : (s : Text) → take (length s) s ≡ s
take-length [] = refl
take-length (c ∷ s) = ap (◌∷◌ c) (take-length s)

or_zero-join :
    (p : Text) (ps : List Text) {o : Option Text}
    → 0 < length p
    → o ≡ some (join (p ∷ ps) b',')
    → Option.map or_zero o ≡ some (join (p ∷ ps) b',')
or_zero-join [] ps pos e = absurd (omega arith)
or_zero-join (c ∷ p) [] pos e = rw e
or_zero-join (c ∷ p) (q ∷ ps) pos e = rw e

pub all-Groups : (s : Text) → 0 < length s → Groups s [] (group_digits_comma s)
unfolding group_digits_comma flatten
all-Groups s pos =
    let g = group_from-Groups s (suc (length s)) (length s) [] (omega arith) pos (omega arith) tt in
    record {
      head = g.head;
      tail = g.tail;
      printed = or_zero-join g.head g.tail g.head_pos g.printed;
      head_pos = g.head_pos;
      head_le = g.head_le;
      three = g.three;
      whole = g.whole ∙ ap (λ t. t ++ []) (take-length s);
    }

-- With no groups made before, the groups hold the whole text.
pub whole_text : {s : Text} {o : Option Text} (g : Groups s [] o) → flatten (g.head ∷ g.tail) ≡ s
unfolding flatten
whole_text {s} g = g.whole ∙ append-nil s
