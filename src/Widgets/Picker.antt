-- ===== src/Widgets/Picker.antt =====
-- The picker of a range in frontend/src/components/DateRangePicker.tsx, with the range of the page that
-- it is on. `ranges` are the presets at the first render.
pub mod Sessions
use revlm.Base.{
  Bool, true, false, not, ◌&&◌, Option, none, some, List, [], if◌then◌else◌, find, Text, codes,
  text_eq, is_empty,
}
use revlm.Dates.Input.{DateInputRangePreset}

pub record DateRange : Type 0 where
  pub start : Text
  pub end : Text

pub record Picker : Type 0 where
  pub is_open : Bool
  pub temp_start : Text
  pub temp_end : Text

abbrev pub initial : DateRange → Picker
initial range = record { is_open = false; temp_start = range.start; temp_end = range.end }

abbrev pub covers : DateRange → DateInputRangePreset → Bool
covers range r = text_eq r.start range.start && text_eq r.end range.end

abbrev label_of : Option DateInputRangePreset → DateRange → Text
label_of (some r) range = r.label
label_of none range =
    if is_empty range.start && is_empty range.end then codes "全部时间" else codes "自定义"

-- `activeLabel`, and by the range of the inputs `tempActiveLabel`.
unfoldable pub active_label : List DateInputRangePreset → DateRange → Text
active_label ranges range = label_of (find (covers range) ranges) range

unfoldable pub temp_active_label : List DateInputRangePreset → Picker → Text
unfolding active_label
temp_active_label ranges p = active_label ranges (record { start = p.temp_start; end = p.temp_end })

-- Opening takes the page's range over.
unfoldable pub handle_toggle : DateRange → Picker → Picker
handle_toggle range p =
    if p.is_open
    then record p { is_open = false }
    else record { is_open = true; temp_start = range.start; temp_end = range.end }

unfoldable pub handle_range_select : DateInputRangePreset → Picker → Picker
handle_range_select r p = record p { temp_start = r.start; temp_end = r.end }

unfoldable pub on_start : Text → Picker → Picker
on_start start p = record p { temp_start = start }

unfoldable pub on_end : Text → Picker → Picker
on_end end p = record p { temp_end = end }

unfoldable pub on_reset : Picker → Picker
on_reset p = record p { temp_start = []; temp_end = [] }

-- What `onChange` is told, and the picker behind it.
unfoldable pub handle_confirm : Picker → DateRange × Picker
handle_confirm p = (record { start = p.temp_start; end = p.temp_end }, record p { is_open = false })

unfoldable pub handle_click_outside : Picker → Picker
handle_click_outside p = record p { is_open = false }

-- The picker of one of some options, by their texts.
pub record SelectOption : Type 0 where
  pub label : Text
  pub value : Text

abbrev label_or : Option SelectOption → Text → Text
label_or none value = value
label_or (some o) value = o.label

unfoldable selected_label : List SelectOption → Text → Text
selected_label options value =
    label_or (find (λ (o : SelectOption). text_eq o.value value) options) value

unfoldable select_toggle : Bool → Bool
select_toggle is_open = not is_open

-- What `onChange` is told, and whether the panel stays.
unfoldable select_option : SelectOption → Text × Bool
select_option o = (o.value, false)
