-- ===== src/Tests/Dates.antt =====
-- The series and the presets of dates at concrete inputs.
use revlm.Base.{
  Text, codes, ◌≡◌, refl, ◌+◌, ◌-◌, ◌≤◌, ◌∷◌, [], none, some, map, List, arith, ℕ, trim, inl,
}
use revlm.Dates.Calendar.{Day, IsDay, day_number, month_length, is_leap, elapsed, before_year}
use revlm.Dates.Series.{
  Point, invalid, at, new_date, read_date, parse_date_only_utc, fill_daily_buckets,
}
use revlm.Dates.Series.Spec.{days}
use revlm.Dates.Series.Laws.{shown, fill_daily_buckets-days, fill_daily_buckets-invalid}

abbrev on_day : ℕ → ℕ → ℕ → Day
on_day y m d = record { year = y; month = m; day = d }

abbrev leap_day : Day
leap_day = on_day 2024 2 29

abbrev march_first : Day
march_first = on_day 2024 3 1

leap_day-IsDay : IsDay leap_day
unfolding month_length is_leap
leap_day-IsDay = record {
  month_pos = omega arith;
  month_le = omega arith;
  day_pos = omega arith;
  day_le = omega arith;
}

read_leap_day : parse_date_only_utc (codes "2024-02-29") ≡ some (at leap_day)
unfolding parse_date_only_utc read_date new_date trim month_length is_leap
read_leap_day = refl

read_march_first : parse_date_only_utc (codes " 2024-03-01") ≡ some (at march_first)
unfolding parse_date_only_utc read_date new_date trim month_length is_leap
read_march_first = refl

in_order : day_number leap_day ≤ day_number march_first
unfolding day_number before_year elapsed month_length is_leap
in_order = omega arith

abbrev zero_point : Text → Point ℕ
zero_point k = record { bucket = k; rest = 0 }

abbrev points : List (Point ℕ)
points = record { bucket = codes "2024-03-01T08"; rest = 5 } ∷ []

fill_daily_buckets-days_example :
    fill_daily_buckets points (codes "2024-02-29") (codes " 2024-03-01") zero_point
    ≡ some (
        map
          (shown points zero_point)
          (days (day_number march_first + 1 - day_number leap_day) leap_day))
fill_daily_buckets-days_example =
    fill_daily_buckets-days points zero_point (codes "2024-02-29") (codes " 2024-03-01") leap_day
      march_first read_leap_day read_march_first in_order

not_a_date : parse_date_only_utc (codes "today") ≡ none
unfolding parse_date_only_utc read_date trim
not_a_date = refl

no_month : parse_date_only_utc (codes "2024-13-01") ≡ some invalid
unfolding parse_date_only_utc read_date new_date trim
no_month = refl

fill_daily_buckets-invalid_example :
    fill_daily_buckets points (codes "2024-13-01") (codes "2024-02-29") zero_point ≡ some []
fill_daily_buckets-invalid_example =
    fill_daily_buckets-invalid points zero_point (codes "2024-13-01") (codes "2024-02-29")
      (at leap_day) (inl (no_month, read_leap_day))
