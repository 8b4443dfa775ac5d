-- ===== src/Tests/Groups.antt =====
-- The form and the members of a channel group at concrete inputs.
use revlm.Base.{
  ℕ, ◌≡◌, refl, Bool, true, false, none, some, List, [], ◌∷◌, Text, codes, trim, is_some,
}
use revlm.Api.{ApiResponse, answered, thrown}
use revlm.Api.ChannelGroups.{
  AdminChannelGroup, AdminChannelGroupMember, AdminChannelGroupDetail, AdminChannelGroupPointer,
}
use revlm.Groups.Editor.{Editor, Normalized, both, normalized_value, is_dirty, save_blocked_reason}
use revlm.Groups.Editor.Handlers.{save_request, handle_save}
use revlm.Groups.Editor.Laws.{handle_save-clean}

-- A draft prints as its name, and every number is positive.
abbrev print : Normalized → Text
print v = v.name

abbrev yes : Text → Bool
yes t = true

abbrev vip : AdminChannelGroup
vip = record {
  id = 2;
  name = codes "vip";
  description = none;
  price_multiplier = codes "1.5";
  status = true;
  is_default = none;
  pointer_channel_id = none;
  pointer_channel_name = none;
  pointer_pinned = none;
}

abbrev editor : Editor
editor = record {
  groups = vip ∷ [];
  detail = none;
  pointer = none;
  loading = false;
  detail_loading = false;
  creating_draft = false;
  saving = false;
  err = [];
  notice = [];
  selected_param = codes "2";
  selected_group = some vip;
  draft = record {
    name = codes "vip2 ";
    description = [];
    price_multiplier = codes "1.5";
    status = true;
  };
  saved_snapshot = codes "vip";
  add_channel_id = [];
}

abbrev detail : ApiResponse AdminChannelGroupDetail
detail = record {
  success = true;
  message = none;
  body = some (record { group = vip; members = []; channels = [] });
}

abbrev pointer : ApiResponse AdminChannelGroupPointer
pointer = record { success = false; message = none; body = none }

abbrev updated : ApiResponse ℕ
updated = record { success = true; message = none; body = none }

sent : is_some (save_request print yes yes editor) ≡ true
unfolding save_request save_blocked_reason is_dirty normalized_value trim
sent = refl

handle_save-clean_example :
    (is_dirty print yes yes
        (handle_save print yes yes (answered updated) thrown (both detail pointer) editor)
      ≡ false)
    × ((handle_save print yes yes (answered updated) thrown (both detail pointer) editor).saving
        ≡ false)
handle_save-clean_example =
    handle_save-clean print yes yes editor updated thrown detail pointer sent refl refl

abbrev member : ℕ → AdminChannelGroupMember
member id = record {
  member_id = id;
  parent_group_id = 2;
  member_channel_id = some id;
  member_channel_name = none;
  member_channel_type = none;
  member_channel_status = none;
  priority = 0;
  promotion = false;
}

abbrev members : List AdminChannelGroupMember
members = member 30 ∷ member 31 ∷ member 32 ∷ []
