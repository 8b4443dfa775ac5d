-- ===== src/Dates/Calendar/Steps.antt =====
-- A step to the next day, or to the day before, moves the count of days by one.
use revlm.Base.{
  ℕ, zero, suc, ◌+◌, ◌-◌, ◌≤◌, ◌<◌, ◌≡◌, refl, sym, ap, ◌∙◌, ◌⊎◌, inl, inr, arith, ltb, Bool-cases,
}
use revlm.Dates.Calendar.{
  Day, month_length, IsDay, elapsed, before_year, day_number, next_month, next_day, previous_day,
}

pub month_length_bounds : (y m : ℕ) → (28 ≤ month_length y m) × (month_length y m ≤ 31)
unfolding month_length
month_length_bounds y m = ground arith

december : (y : ℕ) → month_length y 12 ≡ 31
unfolding month_length
december y = refl

elapsed_step : (y m : ℕ) → 0 < m → elapsed y m ≡ elapsed y (m - 1) + month_length y m
elapsed_step y zero h = absurd (omega arith)
elapsed_step y (suc m) h = let e : suc m - 1 ≡ m = omega arith in rw e (unfold elapsed in refl)

year_step : (y : ℕ) → before_year (y + 1) ≡ before_year y + elapsed y 12
unfolding before_year elapsed month_length
year_step y = ground arith

day_number-next_month :
    (d : Day)
    → IsDay d
    → day_number (next_month d) ≡ day_number d + month_length d.year d.month + 1 - d.day
unfolding day_number
day_number-next_month d v = elim (Bool-cases (ltb d.month 12)) [
  | inl inside ↦ rw inside (
      let e : d.month + 1 - 1 ≡ d.month = omega arith in
      rw (e, elapsed_step d.year d.month v.month_pos) (omega arith))
  | inr last ↦ rw last (
      let e : d.month ≡ 12 = ground arith in
      let same : elapsed d.year 12 ≡ elapsed d.year (d.month - 1) + month_length d.year d.month =
        ap (elapsed d.year) (sym e) ∙ elapsed_step d.year d.month v.month_pos in
      unfold elapsed in omega (arith, same, year_step d.year))
]

pub day_number-next_day : (d : Day) → IsDay d → day_number (next_day d) ≡ day_number d + 1
unfolding next_day
day_number-next_day d v = elim (Bool-cases (ltb d.day (month_length d.year d.month))) [
  | inl inside ↦ rw inside (unfold day_number in omega arith)
  | inr last ↦ rw last (
      let e : d.day ≡ month_length d.year d.month = ground arith in
      omega (arith, day_number-next_month d v))
]

pub next_day-IsDay : (d : Day) → IsDay d → IsDay (next_day d)
unfolding next_day
next_day-IsDay d v =
    ground (arith, month_length_bounds d.year (d.month + 1), month_length_bounds (d.year + 1) 1)

pub previous_day-IsDay : (d : Day) → IsDay d → IsDay (previous_day d)
unfolding previous_day
previous_day-IsDay d v =
    ground (arith, month_length_bounds d.year (d.month - 1), december (d.year - 1))

-- Stepping back from a day behind the first of January of year 0 and forward again.
pub next_day-previous_day :
    (d : Day)
    → IsDay d
    → (0 < d.year) ⊎ ((1 < d.month) ⊎ (1 < d.day))
    → next_day (previous_day d) ≡ d
unfolding next_day previous_day
next_day-previous_day d v h = ground (arith, december (d.year - 1))
