-- ===== src/Dates/Input/Laws.antt =====
-- The ranges that the date picker offers.
use revlm.Base.{ℕ, zero, suc, ◌+◌, ◌≤◌, ◌<◌, ◌≡◌, refl, sym, ap, ◌∙◌, inl, [], ◌∷◌, arith, codes}
use revlm.Dates.Calendar.{Day, next_day, previous_day, IsDay, day_number}
use revlm.Dates.Calendar.Steps.{
  day_number-next_day, previous_day-IsDay, next_day-previous_day, month_length_bounds,
}
use revlm.Dates.Input.{
  shift_local_days, current_month_start, previous_month_start, previous_month_end, preset,
  build_date_input_range_presets,
}

-- A day from the year 1 on has a day before it.
day_number-previous_day :
    (d : Day) → IsDay d → 0 < d.year → day_number (previous_day d) + 1 ≡ day_number d
day_number-previous_day d v h =
    sym (day_number-next_day (previous_day d) (previous_day-IsDay d v))
    ∙ ap day_number (next_day-previous_day d v (inl h))

shift_local_days_valid : (d : Day) (n : ℕ) → IsDay d → IsDay (shift_local_days d n)
unfolding shift_local_days
shift_local_days_valid d zero v = v
shift_local_days_valid d (suc n) v =
    shift_local_days_valid (previous_day d) n (previous_day-IsDay d v)

year_of_previous : (d : Day) → d.year ≤ (previous_day d).year + 1
unfolding previous_day
year_of_previous d = ground arith

-- Shifting back by `n` days is `n` days earlier by the calendar, where the years do not run out.
pub day_number-shift :
    (d : Day) (n : ℕ) → IsDay d → n < d.year → day_number (shift_local_days d n) + n ≡ day_number d
unfolding shift_local_days
day_number-shift d zero v h = omega arith
day_number-shift d (suc n) v h = omega (
  arith,
  day_number-shift (previous_day d) n (previous_day-IsDay d v) (omega (arith, year_of_previous d)),
  day_number-previous_day d v,
)

previous_month_same :
    (now : Day)
    → ((previous_month_start now).year ≡ (previous_month_end now).year)
      × ((previous_month_start now).month ≡ (previous_month_end now).month)
unfolding previous_day
previous_month_same now = ground arith

previous_month_start-day : (now : Day) → (previous_month_start now).day ≡ 1
previous_month_start-day now = ground arith

current_month_start-IsDay : (now : Day) → IsDay now → IsDay (current_month_start now)
current_month_start-IsDay now v = ground (arith, month_length_bounds now.year now.month)

-- What each preset covers, for a day behind the year 7: today, the day before, from seven days before
-- to today (eight days), from the first of the month to today, and the whole month before, from its
-- first day to the day before the first of this month; the last preset has no bounds.
pub build_date_input_range_presets-ranges :
    (now : Day)
    → IsDay now
    → 7 < now.year
    → (y w a z : Day) × (build_date_input_range_presets now
        ≡ preset "今天" now now
          ∷ preset "昨天" y y
          ∷ preset "过去 7 天" w now
          ∷ preset "本月" (record now { day = 1 }) now
          ∷ preset "上个月" a z
          ∷ record { label = codes "全部时间"; start = []; end = [] }
          ∷ [])
      × (day_number y + 1 ≡ day_number now)
      × (day_number w + 7 ≡ day_number now)
      × (a.day ≡ 1)
      × (a.year ≡ z.year)
      × (a.month ≡ z.month)
      × (next_day z ≡ record now { day = 1 })
unfolding build_date_input_range_presets
build_date_input_range_presets-ranges now v h = (
  shift_local_days now 1,
  shift_local_days now 7,
  previous_month_start now,
  previous_month_end now,
  refl,
  day_number-shift now 1 v (omega arith),
  day_number-shift now 7 v h,
  previous_month_start-day now,
  (previous_month_same now).0,
  (previous_month_same now).1,
  next_day-previous_day (current_month_start now) (current_month_start-IsDay now v)
      (inl (omega arith)),
)
