-- ===== src/Channels/Pointer/Laws.antt =====
-- Which groups the dialog of the pointer offers, and what it sends.
use revlm.Base.{
  ℕ, zero, suc, ◌<◌, ◌≡◌, refl, sym, ap, ◌∙◌, subst, pos, true, ◌||◌, Option, none, some, List, [],
  ◌∷◌, arith, inl, inr, Bool-cases, if◌then◌else◌, All, All-imp, is_some, is_empty, Text, text_eq,
  text_eq_iff, text_eq_refl, trim, to_text, int_text, parse_int-int_text,
}
use revlm.Api.ChannelGroups.{AdminChannelGroup, upsert_admin_channel_group_pointer}
use revlm.Api.Channels.{Channel}
use revlm.Dates.Series.{map_get, map_set}
use revlm.Channels.Csv.{mem, parse_groups_csv}
use revlm.Channels.Pointer.{
  Pointer, groups_by_name, channel_group_by_name, push_enabled, enabled_groups, pointer_groups,
  pointer_group_options, target_of, opened, on_open_pointer, on_submit_pointer, request_for,
  submit_for, ChannelPointerTarget,
}

-- Each entry of the map has the name of its group.
abbrev IsNamed : Text × AdminChannelGroup → Type 0
IsNamed e = trim e.1.name ≡ e.0

map_set-IsNamed :
    (m : List (Text × AdminChannelGroup)) (g : AdminChannelGroup)
    → All IsNamed m
    → All IsNamed (map_set (trim g.name) g m)
unfolding map_set
map_set-IsNamed [] g h = (refl, tt)
map_set-IsNamed ((j, w) ∷ m) g h = elim (Bool-cases (text_eq j (trim g.name))) [
  | inl same ↦ rw same (refl, h.1)
  | inr other ↦ rw other (h.0, map_set-IsNamed m g h.1)
]

groups_by_name-IsNamed :
    (m : List (Text × AdminChannelGroup)) (gs : List AdminChannelGroup)
    → All IsNamed m
    → All IsNamed (groups_by_name m gs)
unfolding groups_by_name
groups_by_name-IsNamed m [] h = h
groups_by_name-IsNamed m (g ∷ gs) h = elim (Bool-cases (is_empty (trim g.name))) [
  | inl blank ↦ rw blank (groups_by_name-IsNamed m gs h)
  | inr named ↦ elim (Bool-cases (is_some (map_get (trim g.name) m))) [
    | inl old ↦ rw (named, old) (groups_by_name-IsNamed m gs h)
    | inr new ↦
        rw (named, new)
          (groups_by_name-IsNamed (map_set (trim g.name) g m) gs (map_set-IsNamed m g h))
  ]
]

map_get-IsNamed :
    (name : Text) (m : List (Text × AdminChannelGroup)) (g : AdminChannelGroup)
    → All IsNamed m
    → map_get name m ≡ some g
    → trim g.name ≡ name
unfolding map_get
map_get-IsNamed name [] g h e = cc
map_get-IsNamed name ((j, w) ∷ m) g h e =
    ground (arith, text_eq_iff j name, map_get-IsNamed name m g h.1)

channel_group_by_name-name :
    (p : Pointer) (name : Text) (g : AdminChannelGroup)
    → channel_group_by_name p name ≡ some g
    → trim g.name ≡ name
unfolding channel_group_by_name
channel_group_by_name-name p name g e =
    map_get-IsNamed name _ g (groups_by_name-IsNamed [] p.channel_groups tt) e

-- An enabled group that one of the names names.
abbrev pub IsOffered : List Text → AdminChannelGroup → Type 0
IsOffered names g = (g.status ≡ true) × (mem (trim g.name) names ≡ true)

mem_tail :
    (name : Text) (names : List Text) (v : Text) → mem v names ≡ true → mem v (name ∷ names) ≡ true
mem_tail name names v h = ground arith

push_enabled-All :
    (P : AdminChannelGroup → Type 0) (o : Option AdminChannelGroup) (out : List AdminChannelGroup)
    → ((g : AdminChannelGroup) → o ≡ some g → g.status ≡ true → P g)
    → All P out
    → All P (push_enabled o out)
push_enabled-All P none out f h = h
push_enabled-All P (some g) out f h = elim (Bool-cases g.status) [
  | inl on ↦ subst (λ b. All P (if b then g ∷ out else out)) (sym on) (f g refl on, h)
  | inr off ↦ subst (λ b. All P (if b then g ∷ out else out)) (sym off) h
]

enabled_groups-IsOffered :
    (p : Pointer) (names : List Text)
    → All (IsOffered names) (enabled_groups (channel_group_by_name p) names)
unfolding enabled_groups
enabled_groups-IsOffered p [] = tt
enabled_groups-IsOffered p (name ∷ names) =
    push_enabled-All (IsOffered (name ∷ names)) (channel_group_by_name p name) _
      (λ g e on. (
        on,
        ap (λ t. text_eq name t || mem t names) (channel_group_by_name-name p name g e)
            ∙ ap (λ b. b || mem name names) (text_eq_refl name),
      ))
      (All-imp (λ g h. (h.0, mem_tail name names (trim g.name) h.1)) _
        (enabled_groups-IsOffered p names))

on_open_pointer-eq :
    (ch : Channel) (p : Pointer) (g : AdminChannelGroup) (gs : List AdminChannelGroup)
    → ch.status ≡ true
    → pointer_groups p ch.groups ≡ g ∷ gs
    → on_open_pointer ch p
      ≡ record p { pointer_target = some (target_of ch); pointer_group_id = to_text g.id }
unfolding on_open_pointer
on_open_pointer-eq ch p g gs on e =
    ap (λ xs. opened ch xs p) e
    ∙ ap
        (λ b.
          if b
          then record p { pointer_target = some (target_of ch); pointer_group_id = to_text g.id }
          else p)
        on

-- The groups of a row depend on the groups of the page alone.
pointer_groups-target :
    (t : Option ChannelPointerTarget) (id : Text) (p : Pointer) (groups : Text)
    → pointer_groups (record p { pointer_target = t; pointer_group_id = id }) groups
      ≡ pointer_groups p groups
unfolding pointer_groups channel_group_by_name
pointer_groups-target t id p groups = refl

request_for-pos :
    (n : ℕ) (t : ChannelPointerTarget)
    → 0 < n
    → request_for (pos n) t ≡ some (upsert_admin_channel_group_pointer n t.id (some true))
request_for-pos zero t h = absurd (omega arith)
request_for-pos (suc n) t h = refl

submit_for-to_text :
    (n : ℕ) (t : ChannelPointerTarget)
    → 0 < n
    → submit_for (some t) (to_text n) ≡ some (upsert_admin_channel_group_pointer n t.id (some true))
unfolding int_text
submit_for-to_text n t h =
    ap (λ z. request_for z t) (parse_int-int_text (pos n)) ∙ request_for-pos n t h

-- An enabled channel that is in an enabled group: the dialog offers enabled groups that the channel
-- names, and the form sends the first of them for this channel, unless another one is chosen.
pub on_open_pointer-on_submit_pointer :
    (ch : Channel) (p : Pointer) (g : AdminChannelGroup) (gs : List AdminChannelGroup)
    → ch.status ≡ true
    → pointer_groups p ch.groups ≡ g ∷ gs
    → 0 < g.id
    → let q = on_open_pointer ch p in
      (pointer_group_options q ≡ g ∷ gs)
      × All (IsOffered (parse_groups_csv ch.groups)) (g ∷ gs)
      × (on_submit_pointer true q
          ≡ some (upsert_admin_channel_group_pointer g.id ch.id (some true)))
unfolding pointer_group_options on_submit_pointer
on_open_pointer-on_submit_pointer ch p g gs on e h =
    let q = record p { pointer_target = some (target_of ch); pointer_group_id = to_text g.id } in
    (
      ap pointer_group_options (on_open_pointer-eq ch p g gs on e)
          ∙ pointer_groups-target (some (target_of ch)) (to_text g.id) p ch.groups
          ∙ e,
      subst (All (IsOffered (parse_groups_csv ch.groups))) e
          (enabled_groups-IsOffered p (parse_groups_csv ch.groups)),
      ap (on_submit_pointer true) (on_open_pointer-eq ch p g gs on e)
          ∙ submit_for-to_text g.id (target_of ch) h,
    )
