-- ===== src/Channels/Pointer.antt =====
-- The dialog that makes a channel the pointer of one of its groups, in
-- frontend/src/pages/admin/ChannelsPage.tsx.
pub mod Laws
use revlm.Base.{
  ℕ, zero, suc, ℤ, pos, negsuc, Bool, true, Option, none, some, List, [], ◌∷◌, ◌++◌, if◌then◌else◌,
  or_else, is_some, Text, codes, is_empty, trim, to_text, parse_int,
}
use revlm.Api.{Reply, Outcome, loaded, failed, settle, or_text}
use revlm.Api.Http.{Request}
use revlm.Api.ChannelGroups.{AdminChannelGroup, upsert_admin_channel_group_pointer}
use revlm.Api.Channels.{Channel}
use revlm.Dates.Series.{map_get, map_set}
use revlm.Channels.Csv.{parse_groups_csv}

pub record ChannelPointerTarget : Type 0 where
  pub id : ℕ
  pub name : Text
  pub groups : Text

pub record Pointer : Type 0 where
  pub channel_groups : List AdminChannelGroup
  pub pointer_target : Option ChannelPointerTarget
  pub pointer_group_id : Text

abbrev pub loaded_groups : Outcome (List AdminChannelGroup) → Pointer → Pointer
loaded_groups (loaded d) p = record p { channel_groups = or_else d [] }
loaded_groups (failed message) p = p

-- The groups are loaded once; a failure is passed over.
unfoldable load_channel_groups : Reply (List AdminChannelGroup) → Pointer → Pointer
load_channel_groups reply p = loaded_groups (settle [] reply) p

-- A round of the loop of `channelGroupByName`: the first group of a name counts.
abbrev pub add_group :
    List (Text × AdminChannelGroup) → AdminChannelGroup → List (Text × AdminChannelGroup)
add_group m g =
    let name = trim g.name in
    if is_empty name then m else if is_some (map_get name m) then m else map_set name g m

unfoldable pub groups_by_name :
    List (Text × AdminChannelGroup) → List AdminChannelGroup → List (Text × AdminChannelGroup)
unfolding map_get map_set
groups_by_name m [] = m
groups_by_name m (g ∷ gs) = groups_by_name (add_group m g) gs

unfoldable pub channel_group_by_name : Pointer → Text → Option AdminChannelGroup
unfolding groups_by_name map_get
channel_group_by_name p name = map_get name (groups_by_name [] p.channel_groups)

abbrev pub push_enabled : Option AdminChannelGroup → List AdminChannelGroup → List AdminChannelGroup
push_enabled none out = out
push_enabled (some g) out = if g.status then g ∷ out else out

-- The enabled groups of these names, in the order of the names.
unfoldable pub enabled_groups :
    (Text → Option AdminChannelGroup) → List Text → List AdminChannelGroup
enabled_groups by_name [] = []
enabled_groups by_name (name ∷ names) = push_enabled (by_name name) (enabled_groups by_name names)

-- `pointerGroups` of a row, from the channel's groups.
unfoldable pub pointer_groups : Pointer → Text → List AdminChannelGroup
unfolding enabled_groups channel_group_by_name parse_groups_csv
pointer_groups p groups = enabled_groups (channel_group_by_name p) (parse_groups_csv groups)

abbrev options_of : Pointer → Option ChannelPointerTarget → List AdminChannelGroup
options_of p none = []
options_of p (some t) = pointer_groups p t.groups

unfoldable pub pointer_group_options : Pointer → List AdminChannelGroup
unfolding pointer_groups
pointer_group_options p = options_of p p.pointer_target

abbrev pub target_of : Channel → ChannelPointerTarget
target_of ch = record {
  id = ch.id;
  name = or_text ch.name (codes "渠道 #" ++ to_text ch.id);
  groups = ch.groups;
}

-- `canSetPointer` and the button: only an enabled channel in an enabled group.
abbrev pub opened : Channel → List AdminChannelGroup → Pointer → Pointer
opened ch [] p = p
opened ch (g ∷ gs) p =
    if ch.status
    then record p { pointer_target = some (target_of ch); pointer_group_id = to_text g.id }
    else p

unfoldable pub on_open_pointer : Channel → Pointer → Pointer
unfolding pointer_groups
on_open_pointer ch p = opened ch (pointer_groups p ch.groups) p

unfoldable pub on_pointer_hidden : Pointer → Pointer
on_pointer_hidden p = record p { pointer_target = none; pointer_group_id = [] }

unfoldable pub on_pointer_select : Text → Pointer → Pointer
on_pointer_select id p = record p { pointer_group_id = id }

abbrev pub request_for : ℤ → ChannelPointerTarget → Option Request
request_for (pos zero) t = none
request_for (pos (suc n)) t = some (upsert_admin_channel_group_pointer (suc n) t.id (some true))
request_for (negsuc n) t = none

abbrev pub submit_for : Option ChannelPointerTarget → Text → Option Request
submit_for none id = none
submit_for (some t) id = request_for (parse_int id) t

-- The request of the form; `sure` is the answer to the question before.
unfoldable pub on_submit_pointer : Bool → Pointer → Option Request
on_submit_pointer sure p = if sure then submit_for p.pointer_target p.pointer_group_id else none

abbrev closed_by : {A : Type 0} → Outcome A → Pointer → Pointer
closed_by (loaded d) p = on_pointer_hidden p
closed_by (failed message) p = p

-- The answer to it: the dialog is closed, or stays.
unfoldable pub on_pointer_answer : {A : Type 0} → Reply A → Pointer → Pointer
unfolding on_pointer_hidden
on_pointer_answer reply p = closed_by (settle (codes "设置失败") reply) p
