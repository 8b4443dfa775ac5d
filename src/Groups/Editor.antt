-- ===== src/Groups/Editor.antt =====
-- The state of frontend/src/pages/admin/ChannelGroupsPage.tsx, its draft of a group, and what the two
-- functions that load make of it. A number stands as its print: `positive` and `truthy` are the tests
-- `> 0` and `||` on it. `print` is JSON.stringify of a normalised draft.
pub mod Handlers
pub mod Laws
use revlm.Base.{
  Bool, true, false, not, ◌&&◌, Option, none, some, List, [], if◌then◌else◌, or_else, Text, codes,
  trim, text_eq, is_empty, is_some,
}
use revlm.Api.{ApiResponse, Reply, Outcome, loaded, failed, settle, or_text, non_empty}
use revlm.Api.ChannelGroups.{
  AdminChannelGroup, AdminChannelGroupDetail, AdminChannelGroupPointer, GroupFields,
}

pub record ChannelGroupDraft : Type 0 where
  pub name : Text
  pub description : Text
  pub price_multiplier : Text
  pub status : Bool

abbrev pub no_text : Text
no_text = []

abbrev pub empty_draft : ChannelGroupDraft
empty_draft = record { name = []; description = []; price_multiplier = codes "1"; status = false }

unfoldable pub group_to_draft : (Text → Bool) → AdminChannelGroup → ChannelGroupDraft
group_to_draft truthy group = record {
  name = group.name;
  description = or_else group.description [];
  price_multiplier = if truthy group.price_multiplier then group.price_multiplier else codes "1";
  status = group.status;
}

pub record Normalized : Type 0 where
  pub name : Text
  pub description : Option Text
  pub price_multiplier : Option Text
  pub status : Bool

unfoldable pub normalized_value : (Text → Bool) → ChannelGroupDraft → Normalized
normalized_value positive draft = record {
  name = trim draft.name;
  description = non_empty (trim draft.description);
  price_multiplier = if positive draft.price_multiplier then some draft.price_multiplier else none;
  status = draft.status;
}

-- The body of the update that a normalised draft makes.
abbrev pub fields_of : Normalized → GroupFields
fields_of v = record {
  name = some v.name;
  description = some v.description;
  price_multiplier = v.price_multiplier;
  status = some v.status;
}

pub record Editor : Type 0 where
  pub groups : List AdminChannelGroup
  pub detail : Option AdminChannelGroupDetail
  pub pointer : Option AdminChannelGroupPointer
  pub loading : Bool
  pub detail_loading : Bool
  pub creating_draft : Bool
  pub saving : Bool
  pub err : Text
  pub notice : Text
  pub selected_param : Text
  pub selected_group : Option AdminChannelGroup
  pub draft : ChannelGroupDraft
  pub saved_snapshot : Text
  pub add_channel_id : Text

abbrev pub load_failed : Text
load_failed = codes "加载失败"

abbrev pub take_groups : Outcome (List AdminChannelGroup) → Editor → Editor
take_groups (loaded d) s = record s { groups = or_else d []; err = no_text; loading = false }
take_groups (failed message) s = record s { err = message; groups = []; loading = false }

unfoldable pub refresh : Reply (List AdminChannelGroup) → Editor → Editor
refresh reply s = take_groups (settle load_failed reply) s

-- What `Promise.all` of the detail and the pointer comes to.
pub data Details : Type 0 where
  both : ApiResponse AdminChannelGroupDetail → ApiResponse AdminChannelGroupPointer → Details
  error : Text → Details
  thrown : Details

abbrev pub group_of : Option AdminChannelGroupDetail → Option AdminChannelGroup
group_of none = none
group_of (some d) = some d.group

abbrev draft_of : (Text → Bool) → Option AdminChannelGroup → ChannelGroupDraft
draft_of truthy none = empty_draft
draft_of truthy (some g) = group_to_draft truthy g

abbrev pub pointer_of : ApiResponse AdminChannelGroupPointer → Option AdminChannelGroupPointer
pointer_of r = if r.success then r.body else none

abbrev fail_detail : Bool → Text → Editor → Editor
fail_detail sync message s = record s {
  err = message;
  selected_group = none;
  detail = none;
  pointer = none;
  draft = empty_draft;
  saved_snapshot = no_text;
  add_channel_id = if sync then no_text else s.add_channel_id;
  detail_loading = false;
}

module _ (print : Normalized → Text) (positive truthy : Text → Bool) where
  abbrev sync_form : Bool → Option AdminChannelGroup → Editor → Editor
  sync_form false group s = s
  sync_form true group s =
      let next = draft_of truthy group in
      record s {
        draft = next;
        saved_snapshot = print (normalized_value positive next);
        add_channel_id = no_text;
      }

  abbrev pub take_detail :
      Bool → Option AdminChannelGroupDetail → Option AdminChannelGroupPointer → Editor → Editor
  take_detail sync d p s = record (sync_form sync (group_of d) s) {
    selected_group = group_of d;
    detail = d;
    pointer = p;
    detail_loading = false;
  }

  -- `syncForm` is on unless it is set to false.
  unfoldable pub refresh_detail : Bool → Details → Editor → Editor
  refresh_detail sync (both d p) s =
      if d.success
      then take_detail sync d.body (pointer_of p) s
      else fail_detail sync (or_text (or_else d.message []) (codes "加载详情失败")) s
  refresh_detail sync (error message) s = fail_detail sync message s
  refresh_detail sync thrown s = fail_detail sync (codes "加载详情失败") s

  unfoldable pub is_dirty : Editor → Bool
  is_dirty s =
      is_some s.selected_group
      && not (text_eq (print (normalized_value positive s.draft)) s.saved_snapshot)

  unfoldable pub save_blocked_reason : Editor → Text
  unfolding is_dirty
  save_blocked_reason s =
      if not (is_some s.selected_group)
      then codes "未选择渠道组"
      else if is_empty (normalized_value positive s.draft).name
      then codes "名称不能为空"
      else if not (is_dirty s)
      then codes "没有未保存改动"
      else []
