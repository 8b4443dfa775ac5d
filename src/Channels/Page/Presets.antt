-- ===== src/Channels/Page/Presets.antt =====
-- A preset of the date picker that is applied on the channel page, and what the reload behind it asks
-- for.
use revlm.Base.{
  ℕ, String, codes, ◌≡◌, refl, ◌∙◌, true, false, none, some, [], ◌∷◌, ◌++◌, arith, Text, is_empty,
  trim, if◌then◌else◌, All, All-append, NoSpace, trim_of_NoSpace, digits-NoSpace, is_space_between,
  to_text, All-to_text,
}
use revlm.Api.{non_empty}
use revlm.Api.Channels.{Range, no_range}
use revlm.Dates.Calendar.{Day}
use revlm.Dates.Input.{
  DateInputRangePreset, preset, pad_two, format_date_input_local, build_date_input_range_presets,
}
use revlm.Widgets.Picker.{Picker, handle_range_select, handle_confirm}
use revlm.Channels.Page.{Page, page_params, current_range, on_range_change}

pad_two-NoSpace : (s : Text) → NoSpace s → NoSpace (pad_two s)
pad_two-NoSpace [] h = (
  is_space_between b'0' (omega arith) (omega arith),
  (is_space_between b'0' (omega arith) (omega arith), tt),
)
pad_two-NoSpace (c ∷ []) h = (is_space_between b'0' (omega arith) (omega arith), h)
pad_two-NoSpace (c ∷ d ∷ s) h = h

-- A bound as the picker gives it.
record IsBound (t : Text) : Type 0 where
  trimmed : trim t ≡ t
  given : is_empty t ≡ false

given_behind : (s : Text) (c : ℕ) (t : Text) → is_empty (s ++ c ∷ t) ≡ false
given_behind [] c t = refl
given_behind (x ∷ s) c t = refl

dashed-NoSpace :
    (a b c : Text) → NoSpace a → NoSpace b → NoSpace c → NoSpace (a ++ b'-' ∷ b ++ b'-' ∷ c)
dashed-NoSpace a b c h k l =
    let dash = is_space_between b'-' (omega arith) (omega arith) in
    All-append _ (a ++ b'-' ∷ b) (b'-' ∷ c) (All-append _ a (b'-' ∷ b) h (dash, k)) (dash, l)

dashed-IsBound :
    (a b c : Text) → NoSpace a → NoSpace b → NoSpace c → IsBound (a ++ b'-' ∷ b ++ b'-' ∷ c)
dashed-IsBound a b c h k l = record {
  trimmed = trim_of_NoSpace (a ++ b'-' ∷ b ++ b'-' ∷ c) (dashed-NoSpace a b c h k l);
  given = given_behind (a ++ b'-' ∷ b) b'-' c;
}

format_date_input_local-IsBound : (d : Day) → IsBound (format_date_input_local d)
unfolding format_date_input_local
format_date_input_local-IsBound d =
    let digits : (n : ℕ) → NoSpace (to_text n) = λ n. digits-NoSpace (to_text n) (All-to_text n) in
    let two : (n : ℕ) → NoSpace (pad_two (to_text n)) =
      λ n. pad_two-NoSpace (to_text n) (digits n) in
    dashed-IsBound (to_text d.year) (pad_two (to_text d.month)) (pad_two (to_text d.day))
      (digits d.year) (two d.month) (two d.day)

non_empty_given : (t : Text) → is_empty t ≡ false → non_empty t ≡ some t
non_empty_given [] h = cc
non_empty_given (c ∷ t) h = refl

sent_bound : (t : Text) → IsBound t → non_empty (trim (trim t)) ≡ some t
sent_bound t h = rw (h.trimmed, h.trimmed) (non_empty_given t h.given)

-- What the page asks for once a preset is applied.
abbrev pub asks_for : DateInputRangePreset → Range
asks_for r =
    if is_empty r.start
    then record no_range { all_time = some true }
    else record { start = some r.start; end = some r.end; all_time = none }

-- The page behind a preset that was chosen and applied.
abbrev pub applied : DateInputRangePreset → Picker → Page → Page
applied r picker p =
    let range = (handle_confirm (handle_range_select r picker)).0 in
    on_range_change range.start range.end p

-- `trim` at the handler, at the reload with the present range, and at the reload.
asked_for_dates :
    (start end : Text)
    → IsBound start
    → IsBound end
    → (p : Page)
    → page_params (current_range (on_range_change start end p))
      ≡ record { start = some start; end = some end; all_time = none }
unfolding on_range_change current_range page_params
asked_for_dates start end h k p =
    rw (h.trimmed, h.given)
      (rw (h.trimmed, k.trimmed)
        (rw (k.trimmed, non_empty_given start h.given, non_empty_given end k.given) refl))

-- Every preset but the last one, which is all time.
applied_dates :
    (r : DateInputRangePreset) (picker : Picker) (p : Page)
    → IsBound r.start
    → IsBound r.end
    → page_params (current_range (applied r picker p)) ≡ asks_for r
unfolding handle_confirm handle_range_select
applied_dates r picker p h k = asked_for_dates r.start r.end h k p ∙ rw h.given refl

applied_days :
    (label : String) (a b : Day) (picker : Picker) (p : Page)
    → page_params (current_range (applied (preset label a b) picker p))
      ≡ asks_for (preset label a b)
applied_days label a b picker p =
    applied_dates (preset label a b) picker p (format_date_input_local-IsBound a)
      (format_date_input_local-IsBound b)

abbrev all_time : DateInputRangePreset
all_time = record { label = codes "全部时间"; start = []; end = [] }

applied_all_time :
    (picker : Picker) (p : Page)
    → page_params (current_range (applied all_time picker p)) ≡ asks_for all_time
unfolding handle_confirm handle_range_select on_range_change current_range page_params trim
applied_all_time picker p = refl

-- Whatever preset is applied, and whatever stood in the picker: the reload behind it asks for the bounds
-- of the preset, or for all time where it is the preset of that.
pub build_date_input_range_presets-asks_for :
    (now : Day) (picker : Picker) (p : Page)
    → All
        (λ r. page_params (current_range (applied r picker p)) ≡ asks_for r)
        (build_date_input_range_presets now)
unfolding build_date_input_range_presets
build_date_input_range_presets-asks_for now picker p = (
  applied_days "今天" now now picker p,
  (
    applied_days "昨天" _ _ picker p,
    (
      applied_days "过去 7 天" _ now picker p,
      (
        applied_days "本月" _ now picker p,
        (applied_days "上个月" _ _ picker p, (applied_all_time picker p, tt)),
      ),
    ),
  ),
)
