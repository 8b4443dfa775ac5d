-- ===== src/Channels/Page/Settings.antt =====
-- The dialog of a channel's settings and the buttons of the table in
-- frontend/src/pages/admin/ChannelsPage.tsx, with the form of
-- frontend/src/pages/admin/channels/ChannelCommonTab.tsx. A handler that waits for the server takes
-- the answers as arguments and runs to its end.
use revlm.Base.{
  ℕ, zero, suc, pos, Bool, true, false, not, Option, none, some, [], ◌∷◌, ◌==◌, if◌then◌else◌,
  or_else, find, Text, codes, is_empty, trim, text_eq, to_text, parse_int, int_text,
}
use revlm.Api.{Reply, Outcome, loaded, failed, settle, or_text}
use revlm.Api.Channels.{Channel, UpdateChannelRequest, CreateChannelRequest}
use revlm.Channels.Page.{
  ChannelItem, ChannelsPageResponse, ChannelType, openai_compatible, anthropic, Page, no_text,
  ChannelPatch, apply_channel_patch, refresh_with_current_range,
}

unfoldable default_base_url_for_channel_type : ChannelType → Text
default_base_url_for_channel_type anthropic = codes "https://api.anthropic.com"
default_base_url_for_channel_type openai_compatible = codes "https://api.openai.com"

unfoldable default_name_for_channel_type : ChannelType → Text
default_name_for_channel_type anthropic = codes "Anthropic 渠道"
default_name_for_channel_type openai_compatible = codes "OpenAI 兼容渠道"

unfoldable channel_type_label : Text → Text
channel_type_label t =
    if text_eq t (codes "openai_compatible")
    then codes "OpenAI 兼容"
    else if text_eq t (codes "anthropic")
    then codes "Anthropic"
    else t

abbrev pub with_fields : Channel → Page → Page
with_fields ch p = record p {
  settings_channel = some ch;
  edit_name = ch.name;
  edit_groups = ch.groups;
  edit_base_url = or_else ch.base_url [];
  edit_key = or_else ch.api_key [];
  edit_status = ch.status;
  edit_priority = int_text ch.priority;
}

unfoldable pub open_channel_settings_modal : Channel → Page → Page
open_channel_settings_modal ch p = record (with_fields ch p) {
  settings_channel_id = some ch.id;
  settings_channel_name = or_text ch.name (b'#' ∷ to_text ch.id);
}

abbrev pub has_id : ℕ → ChannelItem → Bool
has_id id x = x.channel.id == id

abbrev pub load_found : Option ChannelItem → Page → Page
load_found none p = record p { settings_channel = none; settings_loading = false }
load_found (some x) p = record (with_fields x.channel p) { settings_loading = false }

unfoldable pub load_channel_settings : ℕ → Page → Page
load_channel_settings id p = load_found (find (has_id id) p.channels) p

abbrev load_chosen : Option ℕ → Page → Page
load_chosen none p = p
load_chosen (some zero) p = p
load_chosen (some (suc id)) p = load_channel_settings (suc id) p

-- The effect on the chosen channel and on the list; 0 counts as none.
unfoldable pub settings_effect : Page → Page
unfolding load_channel_settings
settings_effect p = load_chosen p.settings_channel_id p

unfoldable pub handle_settings_modal_hidden : Page → Page
handle_settings_modal_hidden p = record p {
  settings_channel_id = none;
  settings_channel_name = no_text;
  settings_channel = none;
  settings_loading = false;
  edit_key = no_text;
}

unfoldable pub created_request : ChannelType → CreateChannelRequest
unfolding default_name_for_channel_type default_base_url_for_channel_type
created_request type = record {
  kind = elim type [
    | openai_compatible ↦ codes "openai_compatible"
    | anthropic ↦ codes "anthropic"
  ];
  name = default_name_for_channel_type type;
  groups = none;
  base_url = default_base_url_for_channel_type type;
  key = none;
  priority = some (pos 0);
  price_multiplier = none;
}

abbrev open_found : Option ChannelItem → Page → Page
open_found none p = p
open_found (some x) p = open_channel_settings_modal x.channel p

-- `asked` is the page at the render whose function this is. No identifier, or 0, is a failure.
abbrev pub created : Outcome ℕ → Page → Reply ChannelsPageResponse → Page → Page
created (loaded (some (suc id))) asked list p =
    let r = refresh_with_current_range asked list p in open_found (find (has_id (suc id)) r.1) r.0
created (loaded (some zero)) asked list p = p
created (loaded none) asked list p = p
created (failed message) asked list p = p

unfoldable pub handle_start_create :
    ChannelType → Reply ℕ → Reply ChannelsPageResponse → Page → Page
unfolding refresh_with_current_range open_channel_settings_modal
handle_start_create type reply list p =
    record (created (settle (codes "创建失败") reply) p list (record p { creating_type = some type })) {
      creating_type = none;
    }

abbrev is_id : Option ℕ → ℕ → Bool
is_id none id = false
is_id (some i) id = i == id

abbrev pub status_set : Outcome ℕ → Channel → Reply ChannelsPageResponse → Page → Page
status_set (loaded d) ch list p =
    (refresh_with_current_range p list
      (if is_id p.settings_channel_id ch.id then record p { edit_status = not ch.status } else p)).0
status_set (failed message) ch list p = p

-- The button that enables or disables a channel.
unfoldable pub on_toggle_status : Channel → Reply ℕ → Reply ChannelsPageResponse → Page → Page
unfolding refresh_with_current_range
on_toggle_status ch reply list p = status_set (settle (codes "更新状态失败") reply) ch list p

abbrev deleted : Outcome ℕ → Reply ChannelsPageResponse → Page → Page
deleted (loaded d) list p = (refresh_with_current_range p list p).0
deleted (failed message) list p = p

-- `sure` is the answer to the question before.
unfoldable pub on_delete : Bool → Reply ℕ → Reply ChannelsPageResponse → Page → Page
unfolding refresh_with_current_range
on_delete sure reply list p = if sure then deleted (settle (codes "删除失败") reply) list p else p

-- The state of `ChannelCommonTab`.
pub record CommonTab : Type 0 where
  pub saving : Bool
  pub err : Text
  pub notice : Text
  pub visible_key : Bool
  pub copied : Bool

-- Another channel is shown.
abbrev pub fresh_tab : CommonTab
fresh_tab = record { saving = false; err = []; notice = []; visible_key = false; copied = false }

unfoldable pub copy_key : Page → CommonTab → CommonTab
copy_key p t = if is_empty p.edit_key then t else record t { copied = true }

unfoldable pub update_of : ℕ → Page → UpdateChannelRequest
update_of id p = record {
  id = id;
  name = some (trim p.edit_name);
  groups = some (trim p.edit_groups);
  base_url = some (trim p.edit_base_url);
  key = some p.edit_key;
  status = some p.edit_status;
  priority = some (parse_int p.edit_priority);
  price_multiplier = none;
}

unfoldable pub patch_of : Page → ChannelPatch
patch_of p = record {
  name = some (trim p.edit_name);
  status = some p.edit_status;
  base_url = some (trim p.edit_base_url);
  groups = some (trim p.edit_groups);
  priority = some (parse_int p.edit_priority);
  api_key = some p.edit_key;
}

-- What is wrong with the form.
unfoldable pub form_error : Page → Option Text
form_error p =
    if is_empty (trim p.edit_name)
    then some (codes "名称不能为空")
    else if is_empty (trim p.edit_base_url)
    then some (codes "接口基础地址不能为空")
    else none

-- The page, the form, and the update that is sent.
pub record Saved : Type 0 where
  pub page : Page
  pub tab : CommonTab
  pub sent : Option UpdateChannelRequest

abbrev pub saved : Outcome ℕ → ℕ → Page → CommonTab → Saved
saved (loaded d) id p t = record {
  page = apply_channel_patch id (patch_of p) p;
  tab = record t { saving = false; err = no_text; notice = codes "已保存" };
  sent = some (update_of id p);
}
saved (failed message) id p t = record {
  page = p;
  tab = record t { saving = false; err = message; notice = no_text };
  sent = some (update_of id p);
}

abbrev pub save_checked : Option Text → ℕ → Reply ℕ → Page → CommonTab → Saved
save_checked (some wrong) id reply p t = record {
  page = p;
  tab = record t { err = wrong; notice = no_text };
  sent = none;
}
save_checked none id reply p t = saved (settle (codes "保存失败") reply) id p t

unfoldable pub save_common_settings : ℕ → Reply ℕ → Page → CommonTab → Saved
unfolding form_error apply_channel_patch patch_of update_of
save_common_settings id reply p t = save_checked (form_error p) id reply p t
