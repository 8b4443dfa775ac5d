-- ===== src/Dates/Input.antt =====
-- frontend/src/utils/dateInput.ts. A local date stands for its midnight; the time of day of `now`
-- and the time zone do not reach the result. A shift is a number of days back: the source shifts by
-- -1 and -7 alone.
pub mod Laws
use revlm.Base.{
  String, ℕ, zero, suc, ◌-◌, List, [], ◌∷◌, ◌++◌, ltb, if◌then◌else◌, Text, codes, to_text,
}
use revlm.Dates.Calendar.{Day, month_length, next_day, previous_day}

pub record DateInputRangePreset : Type 0 where
  pub label : Text
  pub start : Text
  pub end : Text

-- `s.padStart(2, '0')`
abbrev pub pad_two : Text → Text
pad_two [] = b'0' ∷ b'0' ∷ []
pad_two (c ∷ []) = b'0' ∷ c ∷ []
pad_two (c ∷ d ∷ s) = c ∷ d ∷ s

unfoldable pub format_date_input_local : Day → Text
format_date_input_local date =
    to_text date.year ++ b'-' ∷ pad_two (to_text date.month) ++ b'-' ∷ pad_two (to_text date.day)

unfoldable today_date_input_local : Day → Text
unfolding format_date_input_local
today_date_input_local now = format_date_input_local now

-- `new Date(y, m, d - days)`: a day before the first of a month is one of the month before.
unfoldable pub shift_local_days : Day → ℕ → Day
shift_local_days date zero = date
shift_local_days date (suc days) = shift_local_days (previous_day date) days

-- `new Date(now.getFullYear(), now.getMonth(), 1)`
abbrev pub current_month_start : Day → Day
current_month_start now = record now { day = 1 }

-- `new Date(now.getFullYear(), now.getMonth() - 1, 1)`
abbrev pub previous_month_start : Day → Day
previous_month_start now =
    if ltb 1 now.month
    then record { year = now.year; month = now.month - 1; day = 1 }
    else record { year = now.year - 1; month = 12; day = 1 }

-- `new Date(now.getFullYear(), now.getMonth(), 0)`: the day before the first of the month.
abbrev pub previous_month_end : Day → Day
previous_month_end now = previous_day (current_month_start now)

abbrev pub preset : String → Day → Day → DateInputRangePreset
preset label start end = record {
  label = codes label;
  start = format_date_input_local start;
  end = format_date_input_local end;
}

unfoldable pub build_date_input_range_presets : Day → List DateInputRangePreset
unfolding format_date_input_local shift_local_days
build_date_input_range_presets now =
    preset "今天" now now
    ∷ preset "昨天" (shift_local_days now 1) (shift_local_days now 1)
    ∷ preset "过去 7 天" (shift_local_days now 7) now
    ∷ preset "本月" (current_month_start now) now
    ∷ preset "上个月" (previous_month_start now) (previous_month_end now)
    ∷ record { label = codes "全部时间"; start = []; end = [] }
    ∷ []
