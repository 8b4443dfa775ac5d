-- ===== src/Dates/Calendar.antt =====
-- The proleptic Gregorian calendar of `Date`: years from 0, months and days from 1. A date stands
-- for its midnight, so `getTime` orders dates as `day_number` does.
pub mod Steps
use revlm.Base.{
  ℕ, zero, suc, ◌+◌, ◌-◌, ◌*◌, ◌/◌, ◌%◌, ◌≤◌, ◌<◌, Bool, not, ◌&&◌, ◌||◌, ltb, ◌==◌, if◌then◌else◌,
}

pub record Day : Type 0 where
  pub year : ℕ
  pub month : ℕ
  pub day : ℕ

unfoldable pub is_leap : ℕ → Bool
is_leap y = (y % 4 == 0) && (not (y % 100 == 0) || (y % 400 == 0))

unfoldable pub month_length : ℕ → ℕ → ℕ
unfolding is_leap
month_length y m =
    if m == 2
    then (if is_leap y then 29 else 28)
    else if (m == 4) || (m == 6) || (m == 9) || (m == 11)
    then 30
    else 31

pub record IsDay (d : Day) : Type 0 where
  pub month_pos : 0 < d.month
  pub month_le : d.month ≤ 12
  pub day_pos : 0 < d.day
  pub day_le : d.day ≤ month_length d.year d.month

-- The days of the first `m` months.
unfoldable pub elapsed : ℕ → ℕ → ℕ
elapsed y zero = 0
elapsed y (suc m) = elapsed y m + month_length y (suc m)

-- The days of the years before `y`.
unfoldable pub before_year : ℕ → ℕ
before_year y = 365 * y + (y + 3) / 4 + (y + 399) / 400 - (y + 99) / 100

unfoldable pub day_number : Day → ℕ
day_number d = before_year d.year + elapsed d.year (d.month - 1) + d.day

-- The first day of the month behind that of `d`.
abbrev pub next_month : Day → Day
next_month d =
    if ltb d.month 12
    then record { year = d.year; month = d.month + 1; day = 1 }
    else record { year = d.year + 1; month = 1; day = 1 }

unfoldable pub next_day : Day → Day
next_day d =
    if ltb d.day (month_length d.year d.month) then record d { day = d.day + 1 } else next_month d

-- The last day of the month before that of `d`.
abbrev pub previous_month_end : Day → Day
previous_month_end d =
    if ltb 1 d.month
    then record { year = d.year; month = d.month - 1; day = month_length d.year (d.month - 1) }
    else record { year = d.year - 1; month = 12; day = 31 }

unfoldable pub previous_day : Day → Day
previous_day d = if ltb 1 d.day then record d { day = d.day - 1 } else previous_month_end d
