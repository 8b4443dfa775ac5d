-- ===== src/Api/ChannelGroups.antt =====
-- The requests of frontend/src/api/admin/channelGroups.ts. A price multiplier stands as its print.
pub mod Routes
use revlm.Base.{ℕ, Bool, Option, none, some, List, ◌++◌, map, Text, codes, to_text}
use mathlib.Core.Option
use revlm.Api.Http.{
  Method, get, post, put, delete, Field, chars, number, decimal, flag, null, Body, fields, numbers,
  Request, given, call, bare,
}

pub record AdminChannelGroup : Type 0 where
  pub id : ℕ
  pub name : Text
  pub description : Option Text
  pub price_multiplier : Text
  pub status : Bool
  pub is_default : Option Bool
  pub pointer_channel_id : Option ℕ
  pub pointer_channel_name : Option Text
  pub pointer_pinned : Option Bool

pub record AdminChannelGroupMember : Type 0 where
  pub member_id : ℕ
  pub parent_group_id : ℕ
  pub member_channel_id : Option ℕ
  pub member_channel_name : Option Text
  pub member_channel_type : Option Text
  pub member_channel_status : Option ℕ
  pub priority : ℕ
  pub promotion : Bool

pub record AdminChannelRef : Type 0 where
  pub id : ℕ
  pub name : Text
  pub kind : Text

pub record AdminChannelGroupDetail : Type 0 where
  pub group : AdminChannelGroup
  pub members : List AdminChannelGroupMember
  pub channels : List AdminChannelRef

pub record AdminChannelGroupPointer : Type 0 where
  pub group_id : ℕ
  pub channel_id : ℕ
  pub channel_name : Option Text
  pub pinned : Bool
  pub moved_at : Option Text
  pub reason : Option Text
  pub note : Option Text

-- The bodies of a creation and of an update have the same fields. A description that is there is a
-- text or null.
pub record GroupFields : Type 0 where
  pub name : Option Text
  pub description : Option (Option Text)
  pub price_multiplier : Option Text
  pub status : Option Bool

abbrev description_field : Option Text → Field
description_field none = null
description_field (some t) = chars t

abbrev group_body : GroupFields → Body
group_body req = fields (
    given "name" (Option.map chars req.name)
    ++ given "description" (Option.map description_field req.description)
    ++ given "price_multiplier" (Option.map decimal req.price_multiplier)
    ++ given "status" (Option.map flag req.status))

unfoldable pub list_admin_channel_groups : Request
list_admin_channel_groups = bare get (codes "/api/admin/channel-groups")

unfoldable pub create_admin_channel_group : GroupFields → Request
create_admin_channel_group req = call post (codes "/api/admin/channel-groups") (group_body req)

unfoldable pub get_admin_channel_group_detail : ℕ → Request
get_admin_channel_group_detail group_id =
    bare get (codes "/api/admin/channel-groups/" ++ to_text group_id ++ codes "/detail")

unfoldable pub get_admin_channel_group_pointer : ℕ → Request
get_admin_channel_group_pointer group_id =
    bare get (codes "/api/admin/channel-groups/" ++ to_text group_id ++ codes "/pointer")

unfoldable pub upsert_admin_channel_group_pointer : ℕ → ℕ → Option Bool → Request
upsert_admin_channel_group_pointer group_id channel_id pinned =
    call put (codes "/api/admin/channel-groups/" ++ to_text group_id ++ codes "/pointer") (
      fields
        (given "channel_id" (some (number channel_id)) ++ given "pinned" (Option.map flag pinned)))

unfoldable pub update_admin_channel_group : ℕ → GroupFields → Request
update_admin_channel_group group_id req =
    call put (codes "/api/admin/channel-groups/" ++ to_text group_id) (group_body req)

unfoldable pub delete_admin_channel_group : ℕ → Request
delete_admin_channel_group group_id =
    bare delete (codes "/api/admin/channel-groups/" ++ to_text group_id)

unfoldable pub set_admin_default_channel_group : ℕ → Request
set_admin_default_channel_group group_id =
    bare put (codes "/api/admin/channel-groups/" ++ to_text group_id ++ codes "/default")

unfoldable pub add_admin_channel_group_channel_member : ℕ → ℕ → Request
add_admin_channel_group_channel_member parent_group_id channel_id =
    call post
      (codes "/api/admin/channel-groups/" ++ to_text parent_group_id ++ codes "/children/channels")
      (fields (given "channel_id" (some (number channel_id))))

unfoldable pub delete_admin_channel_group_channel_member : ℕ → ℕ → Request
delete_admin_channel_group_channel_member parent_group_id channel_id = bare delete (
    codes "/api/admin/channel-groups/"
    ++ (to_text parent_group_id ++ (codes "/children/channels/" ++ to_text channel_id)))

unfoldable pub reorder_admin_channel_group_members : ℕ → List ℕ → Request
reorder_admin_channel_group_members parent_group_id ordered_member_ids =
    call post
      (codes "/api/admin/channel-groups/" ++ to_text parent_group_id ++ codes "/children/reorder")
      (numbers ordered_member_ids)
