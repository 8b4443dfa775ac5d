-- ===== src/Dates/Series.antt =====
-- frontend/src/utils/timeSeries.ts. A point is a bucket and what else the page keeps in it.
pub mod Spec
pub mod Laws
pub mod Labels
use mathlib.Core.Option
use revlm.Base.{
  ℕ, zero, suc, ◌+◌, ◌-◌, ◌*◌, ◌/◌, ◌%◌, Bool, false, ◌&&◌, Option, none, some, List, [], ◌∷◌, ◌++◌,
  map, ltb, leb, ◌==◌, if◌then◌else◌, or_else, take, Text, text_eq, is_empty, trim, is_digit,
}
use revlm.Dates.Calendar.{Day, month_length, day_number, next_day}

pub record Point {ℓ} (A : Type ℓ) : Type ℓ where
  pub bucket : Text
  pub rest : A

-- `(bucket || '').trim().slice(0, 10)`
unfoldable pub normalize_daily_bucket_label : Text → Text
normalize_daily_bucket_label bucket = take 10 (trim bucket)

-- What `new Date` makes of a text: `Invalid Date`, or a day.
pub data Instant : Type 0 where
  invalid : Instant
  at : Day → Instant

-- A day past the end of its month is a day of the next month.
abbrev carried : Day → Day
carried d =
    if leb d.day (month_length d.year d.month)
    then d
    else record d { month = d.month + 1; day = d.day - month_length d.year d.month }

-- Months from 1 to 12 and days from 1 to 31 are read, and no others.
unfoldable pub new_date : ℕ → ℕ → ℕ → Instant
new_date y m d =
    if leb 1 m && leb m 12 && leb 1 d && leb d 31
    then at (carried (record { year = y; month = m; day = d }))
    else invalid

abbrev pub digit : ℕ → ℕ
digit c = c - b'0'

-- The test `/^\d{4}-\d{2}-\d{2}$/`, and the date that its groups name.
unfoldable pub read_date : Text → Option Instant
read_date (a ∷ b ∷ c ∷ d ∷ p ∷ e ∷ f ∷ q ∷ g ∷ h ∷ []) =
    if is_digit a
      && is_digit b
      && is_digit c
      && is_digit d
      && (p == b'-')
      && is_digit e
      && is_digit f
      && (q == b'-')
      && is_digit g
      && is_digit h
    then some (
        new_date (1000 * digit a + 100 * digit b + 10 * digit c + digit d) (10 * digit e + digit f)
          (10 * digit g + digit h))
    else none
read_date _ = none

unfoldable pub parse_date_only_utc : Text → Option Instant
parse_date_only_utc raw = read_date (trim raw)

abbrev pub two_digits : ℕ → Text
two_digits n = (b'0' + n / 10 % 10) ∷ (b'0' + n % 10) ∷ []

-- `d.toISOString().slice(0, 10)`, for the years from 0 to 9999.
unfoldable pub format_date_only_utc : Day → Text
format_date_only_utc d =
    (b'0' + d.year / 1000 % 10) ∷ (b'0' + d.year / 100 % 10) ∷ two_digits (d.year % 100)
    ++ b'-' ∷ two_digits d.month
    ++ b'-' ∷ two_digits d.day

-- `a.getTime() > b.getTime()`, and false if either is no number.
abbrev is_later : Instant → Instant → Bool
is_later (at a) (at b) = ltb (day_number b) (day_number a)
is_later (at a) invalid = false
is_later invalid b = false

-- `a.getTime() <= b.getTime()`
abbrev is_at_most : Day → Instant → Bool
is_at_most a (at b) = leb (day_number a) (day_number b)
is_at_most a invalid = false

-- One round for each day of the range, and one for the test that ends the loop.
abbrev rounds : Instant → Instant → ℕ
rounds (at s) (at e) = suc (day_number e + 1 - day_number s)
rounds _ _ = 1

-- A `Map`: `set` keeps the place of a key that it holds.
module _ {ℓ} {V : Type ℓ} where
  unfoldable pub map_get : Text → List (Text × V) → Option V
  map_get k [] = none
  map_get k ((j, v) ∷ m) = if text_eq j k then some v else map_get k m

  unfoldable pub map_set : Text → V → List (Text × V) → List (Text × V)
  map_set k v [] = (k, v) ∷ []
  map_set k v ((j, w) ∷ m) = if text_eq j k then (k, v) ∷ m else (j, w) ∷ map_set k v m

module _ {ℓ} {A : Type ℓ} where
  abbrev pub normalize_point : Point A → Point A
  normalize_point p = record p { bucket = normalize_daily_bucket_label p.bucket }

  -- A round of the loop that fills `byDay`.
  abbrev pub add_point : List (Text × Point A) → Point A → List (Text × Point A)
  add_point m p =
      let key = normalize_daily_bucket_label p.bucket in if is_empty key then m else map_set key p m

  unfoldable pub by_day : List (Text × Point A) → List (Point A) → List (Text × Point A)
  by_day m [] = m
  by_day m (p ∷ ps) = by_day (add_point m p) ps

  module _ (m : List (Text × Point A)) (zero_point : Text → Point A) where
    -- `byDay.get(day) || zeroPoint(day)`
    abbrev pub point_of : Day → Point A
    point_of d = let day = format_date_only_utc d in or_else (map_get day m) (zero_point day)

    -- The loop over the days; `none` means that the fuel ran out.
    unfoldable pub fill_from : Instant → ℕ → Instant → Option (List (Point A))
    fill_from end zero cursor = none
    fill_from end (suc fuel) invalid = some []
    fill_from end (suc fuel) (at d) =
        let rest = Option.map (λ out. point_of d ∷ out) (fill_from end fuel (at (next_day d))) in
        if is_at_most d end then rest else some []

  abbrev fill_range :
      List (Point A) → (Text → Point A) → Option Instant → Option Instant → Option (List (Point A))
  fill_range normalized zero_point (some start) (some end) =
      if is_later start end
      then some normalized
      else fill_from (by_day [] normalized) zero_point end (rounds start end) start
  fill_range normalized zero_point _ _ = some normalized

  unfoldable pub fill_daily_buckets :
      List (Point A) → Text → Text → (Text → Point A) → Option (List (Point A))
  fill_daily_buckets points start end zero_point =
      fill_range (map normalize_point points) zero_point (parse_date_only_utc start)
        (parse_date_only_utc end)
