-- ===== src/Tests/Pickers.antt =====
-- The picker of a range and the selection of the address at concrete inputs.
use revlm.Base.{◌≡◌, ◌≢◌, [], ◌∷◌, List, codes, All, Text}
use revlm.Dates.Calendar.{Day}
use revlm.Dates.Input.{preset, build_date_input_range_presets}
use revlm.Widgets.Picker.{DateRange, Picker}
use revlm.Widgets.Picker
use revlm.Widgets.Picker.Sessions.{
  Event, toggle, outside, choose, write_end, confirm, happen, promised, abstract, happen-abstract,
}
use revlm.Widgets.Selection.{SearchParams, selection}
use revlm.Groups.Selection.{selected_id, select_group, select_none, selected_id-select_group}
use revlm.Channels.Page
use revlm.Channels.Page.{page_params, current_range}
use revlm.Channels.Page.Presets.{applied, asks_for, build_date_input_range_presets-asks_for}

abbrev may_day : Day
may_day = record { year = 2024; month = 5; day = 1 }

abbrev today : DateRange
today = record { start = codes "2024-05-01"; end = codes "2024-05-01" }

abbrev closed : Picker
closed = Picker.initial today

-- An end that is written, left, and chosen again in another session.
abbrev visits : List Event
visits =
    toggle
    ∷ write_end (codes "2024-05-09")
    ∷ outside
    ∷ toggle
    ∷ choose (preset "昨天" may_day may_day)
    ∷ confirm
    ∷ []

happen-abstract_example :
    abstract (happen visits (record { range = today; picker = closed }))
    ≡ promised visits (abstract (record { range = today; picker = closed }))
happen-abstract_example = happen-abstract visits (record { range = today; picker = closed })

build_date_input_range_presets-asks_for_example :
    All
      (λ r. page_params (current_range (applied r closed Page.initial)) ≡ asks_for r)
      (build_date_input_range_presets may_day)
build_date_input_range_presets-asks_for_example =
    build_date_input_range_presets-asks_for may_day closed Page.initial

abbrev address : SearchParams
address = (codes "tab", codes "members") ∷ (codes "group", codes "4") ∷ []

selected_id-select_group_example :
    (selected_id (select_group 12 address) ≡ 12)
    × (selected_id (select_none (select_group 12 address)) ≡ 0)
    × ((other : Text)
        → other ≢ codes "group"
        → selection other (select_none (select_group 12 address)) ≡ selection other address)
selected_id-select_group_example = selected_id-select_group 12 address
