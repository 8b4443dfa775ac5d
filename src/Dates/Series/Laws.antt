-- ===== src/Dates/Series/Laws.antt =====
-- What `fillDailyBuckets` returns on every branch.
use mathlib.Core.Path.{fun_ext}
use revlm.Base.{
  ℕ, zero, suc, ◌+◌, ◌-◌, ◌≤◌, ◌<◌, ◌≡◌, refl, ap, ◌∙◌, ◌≢◌, ◌⊎◌, Bool, true, false, Option, none,
  some, List, [], ◌∷◌, map, arith, ltb, if◌then◌else◌, or_else, Text, trim,
}
use revlm.Dates.Calendar.{Day, day_number, IsDay, next_day, month_length}
use revlm.Dates.Calendar.Steps.{day_number-next_day, next_day-IsDay}
use revlm.Dates.Series.{
  Point, map_get, by_day, Instant, at, invalid, new_date, read_date, parse_date_only_utc,
  format_date_only_utc, normalize_point, point_of, fill_from, fill_daily_buckets,
}
use revlm.Dates.Series.Spec.{days, first_of, last_of, map_get-by_day}

new_date-IsDay : (y m d : ℕ) {x : Day} → new_date y m d ≡ at x → IsDay x
unfolding new_date month_length
new_date-IsDay y m d h = ground (arith)

some_of_if {ℓ} :
    {A : Type ℓ} (b : Bool) (x : A) {y : A} → (if b then some x else none) ≡ some y → x ≡ y
some_of_if true x h = cc
some_of_if false x h = cc

read_date-IsDay : (t : Text) {x : Day} → read_date t ≡ some (at x) → IsDay x
unfolding read_date
read_date-IsDay (a ∷ b ∷ c ∷ d ∷ p ∷ e ∷ f ∷ q ∷ g ∷ k ∷ []) h =
    new_date-IsDay _ _ _ (some_of_if _ _ h)
read_date-IsDay _ h = cc

-- A text that is read as a date names a day of the calendar.
parse_date-IsDay : (raw : Text) {x : Day} → parse_date_only_utc raw ≡ some (at x) → IsDay x
unfolding parse_date_only_utc
parse_date-IsDay raw h = read_date-IsDay (trim raw) h

format_date-ne-nil : (d : Day) → format_date_only_utc d ≢ []
unfolding format_date_only_utc
format_date-ne-nil d = cc

module _ {ℓ} {A : Type ℓ} (m : List (Text × Point A)) (zero_point : Text → Point A) (e : Day) where
  -- The loop makes a round for each day up to the end, and stops.
  fill_from-days :
      (fuel k : ℕ) (d : Day)
      → IsDay d
      → day_number e + 1 - day_number d ≡ k
      → k < fuel
      → fill_from m zero_point (at e) fuel (at d) ≡ some (map (point_of m zero_point) (days k d))
  unfolding fill_from
  fill_from-days zero k d v same lt = absurd (omega arith)
  fill_from-days (suc fuel) zero d v same lt = ground arith
  fill_from-days (suc fuel) (suc k) d v same lt =
      let ih =
        fill_from-days fuel k (next_day d) (next_day-IsDay d v)
          (omega (arith, day_number-next_day d v)) (omega arith) in
      rw ih (ground arith)

or_none {ℓ} : {A : Type ℓ} (o : Option A) → first_of o none ≡ o
or_none none = refl
or_none (some a) = refl

module _ {ℓ} {A : Type ℓ} (points : List (Point A)) (zero_point : Text → Point A) where
  -- The point that the page shows for a day: the last one with its label, or a zero point.
  unfoldable pub shown : Day → Point A
  shown d =
      let label = format_date_only_utc d in
      or_else (last_of label (map normalize_point points)) (zero_point label)

  shown_lem : (d : Day) → point_of (by_day [] (map normalize_point points)) zero_point d ≡ shown d
  unfolding shown map_get
  shown_lem d =
      ap (λ o. or_else o (zero_point (format_date_only_utc d)))
        (map_get-by_day (format_date_only_utc d) [] (map normalize_point points)
            (format_date-ne-nil d)
          ∙ or_none _)

  module _ (start end : Text) where
    -- Between two dates in order the result has one point for each day, in order: the last point of
    -- the input whose label is the day, or the zero point of the day. The loop ends within its fuel.
    pub fill_daily_buckets-days :
        (s e : Day)
        → parse_date_only_utc start ≡ some (at s)
        → parse_date_only_utc end ≡ some (at e)
        → day_number s ≤ day_number e
        → fill_daily_buckets points start end zero_point
          ≡ some (map shown (days (day_number e + 1 - day_number s) s))
    unfolding fill_daily_buckets
    fill_daily_buckets-days s e ps pe le =
        let in_order : ltb (day_number e) (day_number s) ≡ false = ground arith in
        rw (ps, pe, in_order)
          (fill_from-days (by_day [] (map normalize_point points)) zero_point e _
              (day_number e + 1 - day_number s) s (parse_date-IsDay start ps) refl (omega arith)
            ∙ ap (λ f. some (map f (days (day_number e + 1 - day_number s) s))) (fun_ext shown_lem))

    -- Where a text is not written as a date, or the start lies behind the end, the points come back
    -- with their labels normalised.
    pub fill_daily_buckets-unread :
        (parse_date_only_utc start ≡ none)
          ⊎ ((parse_date_only_utc end ≡ none)
              ⊎ ((s : Day) × (e : Day) × (parse_date_only_utc start ≡ some (at s))
                  × (parse_date_only_utc end ≡ some (at e))
                  × (day_number e < day_number s)))
        → fill_daily_buckets points start end zero_point ≡ some (map normalize_point points)
    unfolding fill_daily_buckets
    fill_daily_buckets-unread h = ground arith

    -- Where both texts are written as dates and one of them names no date, every point is lost.
    pub fill_daily_buckets-invalid :
        (o : Instant)
        → ((parse_date_only_utc start ≡ some invalid) × (parse_date_only_utc end ≡ some o))
          ⊎ ((parse_date_only_utc start ≡ some o) × (parse_date_only_utc end ≡ some invalid))
        → fill_daily_buckets points start end zero_point ≡ some []
    unfolding fill_daily_buckets fill_from
    fill_daily_buckets-invalid o h = ground arith
