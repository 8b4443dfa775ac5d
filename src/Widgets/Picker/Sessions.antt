-- ===== src/Widgets/Picker/Sessions.antt =====
-- The picker against what it promises: a range, and a draft of it while the panel is open.
use revlm.Base.{
  ◌≡◌, refl, ap, ◌∙◌, Bool, true, false, Option, none, some, List, [], ◌∷◌, Text, if◌then◌else◌,
}
use revlm.Dates.Input.{DateInputRangePreset}
use revlm.Widgets.Picker.{
  DateRange, Picker, handle_toggle, handle_range_select, on_start, on_end, on_reset, handle_confirm,
  handle_click_outside,
}

-- The page's range and its picker.
pub record World : Type 0 where
  pub range : DateRange
  pub picker : Picker

pub data Event : Type 0 where
  toggle : Event
  outside : Event
  choose : DateInputRangePreset → Event
  write_start : Text → Event
  write_end : Text → Event
  clear : Event
  confirm : Event

-- The page takes over what it is told. A panel that is closed is not on the screen, so that nothing in
-- it is used.
abbrev used : Event → World → World
used toggle w = record w { picker = handle_toggle w.range w.picker }
used outside w = record w { picker = handle_click_outside w.picker }
used (choose r) w = record w { picker = handle_range_select r w.picker }
used (write_start start) w = record w { picker = on_start start w.picker }
used (write_end end) w = record w { picker = on_end end w.picker }
used clear w = record w { picker = on_reset w.picker }
used confirm w = record {
  range = (handle_confirm w.picker).0;
  picker = (handle_confirm w.picker).1;
}

abbrev needs_panel : Event → Bool
needs_panel toggle = false
needs_panel outside = false
needs_panel (choose r) = true
needs_panel (write_start start) = true
needs_panel (write_end end) = true
needs_panel clear = true
needs_panel confirm = true

unfoldable pub happens : Event → World → World
unfolding handle_toggle handle_range_select on_start on_end on_reset handle_confirm
    handle_click_outside
happens e w = if needs_panel e then (if w.picker.is_open then used e w else w) else used e w

abbrev pub happen : List Event → World → World
happen [] w = w
happen (e ∷ es) w = happen es (happens e w)

-- What the picker promises: nothing is kept of a panel that was closed.
pub record Session : Type 0 where
  pub range : DateRange
  pub draft : Option DateRange

abbrev opened_or_closed : DateRange → Option DateRange → Option DateRange
opened_or_closed range none = some range
opened_or_closed range (some d) = none

abbrev edited : Event → DateRange → DateRange
edited (choose r) d = record { start = r.start; end = r.end }
edited (write_start start) d = record d { start = start }
edited (write_end end) d = record d { end = end }
edited clear d = record { start = []; end = [] }
edited toggle d = d
edited outside d = d
edited confirm d = d

abbrev pub promised_at : Event → DateRange → Option DateRange → Session
promised_at toggle range o = record { range = range; draft = opened_or_closed range o }
promised_at outside range o = record { range = range; draft = none }
promised_at e range none = record { range = range; draft = none }
promised_at confirm range (some d) = record { range = d; draft = none }
promised_at e range (some d) = record { range = range; draft = some (edited e d) }

abbrev pub promised : List Event → Session → Session
promised [] s = s
promised (e ∷ es) s = promised es (promised_at e s.range s.draft)

abbrev pub abstract : World → Session
abstract w = record {
  range = w.range;
  draft =
      if w.picker.is_open
      then some (record { start = w.picker.temp_start; end = w.picker.temp_end })
      else none;
}

abbrev world_of : DateRange → Bool → Text → Text → World
world_of range o a b = record {
  range = range;
  picker = record { is_open = o; temp_start = a; temp_end = b };
}

happens-abstract :
    (e : Event) (range : DateRange) (o : Bool) (a b : Text)
    → let w = world_of range o a b in
      abstract (happens e w) ≡ promised_at e (abstract w).range (abstract w).draft
unfolding happens handle_toggle handle_range_select on_start on_end on_reset handle_confirm
    handle_click_outside
happens-abstract toggle range true a b = refl
happens-abstract toggle range false a b = refl
happens-abstract outside range true a b = refl
happens-abstract outside range false a b = refl
happens-abstract (choose r) range true a b = refl
happens-abstract (choose r) range false a b = refl
happens-abstract (write_start start) range true a b = refl
happens-abstract (write_start start) range false a b = refl
happens-abstract (write_end end) range true a b = refl
happens-abstract (write_end end) range false a b = refl
happens-abstract clear range true a b = refl
happens-abstract clear range false a b = refl
happens-abstract confirm range true a b = refl
happens-abstract confirm range false a b = refl

-- However the picker is used, the page has the range that was applied last, and the panel, where it is
-- open, shows the draft that the session has since it was opened; what stood in a panel that was closed
-- without applying it is without effect.
pub happen-abstract :
    (es : List Event) (w : World) → abstract (happen es w) ≡ promised es (abstract w)
happen-abstract [] w = refl
happen-abstract (e ∷ es) w =
    happen-abstract es (happens e w)
    ∙ ap (promised es)
        (happens-abstract e w.range w.picker.is_open w.picker.temp_start w.picker.temp_end)
