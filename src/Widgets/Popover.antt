-- ===== src/Widgets/Popover.antt =====
-- The place of a panel beside what opens it: frontend/src/hooks/useAnchoredPopover.ts. Lengths and
-- positions are whole numbers of some unit, positions may be negative.
use revlm.Base.{
  ◌≡◌, Bool, ◌&&◌, not, Option, none, some, arith, is_some, ℤ, pos, ◌+ℤ◌, ◌-ℤ◌, ◌≤ℤ◌, max, min,
  max_bounds, min_bounds, ≤ℤ_antisym,
}

pub record PopoverPos : Type 0 where
  pub left : ℤ
  pub top : ℤ

-- What is read of the two rectangles and of the window.
pub record Measures : Type 0 where
  pub btn_left : ℤ
  pub btn_bottom : ℤ
  pub panel_width : ℤ
  pub panel_height : ℤ
  pub vw : ℤ
  pub vh : ℤ

-- One axis: between the margin and the last place at which a panel of this size has the margin behind
-- it; the margin comes first where there is no such place.
unfoldable clamp : (margin size view wanted : ℤ) → ℤ
unfolding max min
clamp margin size view wanted = min (max margin wanted) (max margin (view -ℤ size -ℤ margin))

unfoldable pub reposition : (margin offset : ℤ) → Measures → PopoverPos
unfolding clamp
reposition margin offset m = record {
  left = clamp margin (max (pos 0) m.panel_width) m.vw m.btn_left;
  top = clamp margin (max (pos 0) m.panel_height) m.vh (m.btn_bottom +ℤ offset);
}

pub record PanelStyle : Type 0 where
  pub left : ℤ
  pub top : ℤ
  pub visible : Bool

abbrev left_of : Option PopoverPos → ℤ → ℤ
left_of none margin = margin
left_of (some p) margin = p.left

abbrev top_of : Option PopoverPos → ℤ → ℤ
top_of none margin = margin
top_of (some p) margin = p.top

-- A panel that is open and has no place yet is hidden.
unfoldable panel_style : Bool → ℤ → Option PopoverPos → PanelStyle
panel_style open_now margin p = record {
  left = left_of p margin;
  top = top_of p margin;
  visible = not (open_now && not (is_some p));
}

-- A panel of this size at `place`, on an axis of the length `view`.
pub record IsPlaced (margin size view wanted place : ℤ) : Type 0 where
  -- The margin in front is kept.
  pub front : margin ≤ℤ place
  -- Where the panel fits between the margins, it ends before the second one.
  pub behind : margin ≤ℤ view -ℤ size -ℤ margin → place ≤ℤ view -ℤ size -ℤ margin
  -- Where it does not fit, it starts at the margin.
  pub squeezed : view -ℤ size -ℤ margin ≤ℤ margin → place ≡ margin
  -- A place that keeps both margins is taken as it is.
  pub wanted_kept : margin ≤ℤ wanted → wanted ≤ℤ view -ℤ size -ℤ margin → place ≡ wanted

-- What `clamp` does, for any last place.
between :
    (margin last wanted : ℤ)
    → let place = min (max margin wanted) (max margin last) in
      (margin ≤ℤ place)
      × (margin ≤ℤ last → place ≤ℤ last)
      × (last ≤ℤ margin → place ≤ℤ margin)
      × (margin ≤ℤ wanted → wanted ≤ℤ last → (place ≤ℤ wanted) × (wanted ≤ℤ place))
between margin last wanted =
    let a = max_bounds margin wanted in
    let b = max_bounds margin last in
    let c = min_bounds (max margin wanted) (max margin last) in
    (omega arith, λ h. omega arith, λ h. omega arith, λ h k. (omega arith, omega arith))

clamp-IsPlaced :
    (margin size view wanted : ℤ) → IsPlaced margin size view wanted (clamp margin size view wanted)
unfolding clamp
clamp-IsPlaced margin size view wanted =
    let (front, behind, squeezed, kept) = between margin (view -ℤ size -ℤ margin) wanted in
    record {
      front = front;
      behind = behind;
      squeezed = λ h. ≤ℤ_antisym _ _ (squeezed h) front;
      wanted_kept = λ h k. ≤ℤ_antisym _ _ (kept h k).0 (kept h k).1;
    }

-- The panel stands between the margins of the window, on both axes, beside what opens it if that can
-- be; where there is no room it starts at the margin.
pub reposition-IsPlaced :
    (margin offset : ℤ) (m : Measures)
    → let p = reposition margin offset m in
      IsPlaced margin (max (pos 0) m.panel_width) m.vw m.btn_left p.left
      × IsPlaced margin (max (pos 0) m.panel_height) m.vh (m.btn_bottom +ℤ offset) p.top
unfolding reposition
reposition-IsPlaced margin offset m = (
  clamp-IsPlaced margin (max (pos 0) m.panel_width) m.vw m.btn_left,
  clamp-IsPlaced margin (max (pos 0) m.panel_height) m.vh (m.btn_bottom +ℤ offset),
)
