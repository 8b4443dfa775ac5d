-- ===== src/Channels/Page.antt =====
-- The state of frontend/src/pages/admin/ChannelsPage.tsx and its table: the sections, the patch of a
-- saved channel, the reload over the range, and the handlers of the range. The chart of a channel is
-- in Series, the dialog of its settings in Settings, the one of the pointer in Pointer.
pub mod Settings
pub mod Sections
pub mod Patches
pub mod SettingsLaws
pub mod Presets
use revlm.Base.{
  ℕ, ◌-◌, ℤ, Bool, true, false, not, ◌&&◌, Option, none, some, List, [], ◌++◌, map, ◌==◌,
  if◌then◌else◌, or_else, keep, find_index, length, Text, codes, is_empty, trim,
}
use revlm.Api.{Reply, Outcome, loaded, failed, settle, or_text, non_empty}
use revlm.Api.Channels.{Channel, Granularity, hour, day, Range, no_range}

pub record ChannelUsage : Type 0 where
  pub usd : Text
  pub tokens : ℕ
  pub cache_ratio : Text
  pub avg_first_token_latency : Text
  pub tokens_per_second : Text

pub record ChannelRuntime : Type 0 where
  pub available : Bool
  pub fail_score : Option ℕ
  pub banned_until : Option Text
  pub banned_remaining : Option Text
  pub ban_streak : Option ℕ
  pub banned_active : Bool

-- A `Channel` with more fields.
pub record ChannelItem : Type 0 where
  pub channel : Channel
  pub in_use : Bool
  pub usage : ChannelUsage
  pub runtime : ChannelRuntime

-- `ChannelsPageResponse`, as far as the page reads it.
pub record ChannelsPageResponse : Type 0 where
  pub start : Text
  pub end : Text
  pub channels : Option (List ChannelItem)

pub data ChannelType : Type 0 where
  openai_compatible : ChannelType
  anthropic : ChannelType

pub record Page : Type 0 where
  pub channels : List ChannelItem
  pub loading : Bool
  pub expanded_channel_id : Option ℕ
  pub usage_start : Text
  pub usage_end : Text
  pub usage_all_time : Bool
  pub usage_range_customized : Bool
  pub usage_range_dirty : Bool
  pub detail_granularity : Granularity
  pub creating_type : Option ChannelType
  pub settings_channel_id : Option ℕ
  pub settings_channel_name : Text
  pub settings_channel : Option Channel
  pub settings_loading : Bool
  pub edit_name : Text
  pub edit_groups : Text
  pub edit_base_url : Text
  pub edit_key : Text
  pub edit_status : Bool
  pub edit_priority : Text

abbrev pub no_text : Text
no_text = []

abbrev pub initial : Page
initial = record {
  channels = [];
  loading = true;
  expanded_channel_id = none;
  usage_start = [];
  usage_end = [];
  usage_all_time = false;
  usage_range_customized = false;
  usage_range_dirty = false;
  detail_granularity = hour;
  creating_type = none;
  settings_channel_id = none;
  settings_channel_name = [];
  settings_channel = none;
  settings_loading = false;
  edit_name = [];
  edit_groups = [];
  edit_base_url = [];
  edit_key = [];
  edit_status = true;
  edit_priority = codes "0";
}

pub record ChannelPatch : Type 0 where
  pub name : Option Text
  pub status : Option Bool
  pub base_url : Option Text
  pub groups : Option Text
  pub priority : Option ℤ
  pub api_key : Option Text

abbrev or_keep : {A : Type 0} → Option A → Option A → Option A
or_keep none o = o
or_keep (some a) o = some a

-- `{ ...c, ...patch }`
unfoldable pub patched : ChannelPatch → Channel → Channel
patched patch c = record c {
  name = or_else patch.name c.name;
  status = or_else patch.status c.status;
  base_url = or_keep patch.base_url c.base_url;
  groups = or_else patch.groups c.groups;
  priority = or_else patch.priority c.priority;
  api_key = or_keep patch.api_key c.api_key;
}

abbrev pub patch_if : ℕ → ChannelPatch → Channel → Channel
patch_if id patch c = if c.id == id then patched patch c else c

abbrev pub patch_item : ℕ → ChannelPatch → ChannelItem → ChannelItem
patch_item id patch x = record x { channel = patch_if id patch x.channel }

abbrev pub patch_shown : ℕ → ChannelPatch → Option Channel → Option Channel
patch_shown id patch none = none
patch_shown id patch (some c) = some (patch_if id patch c)

-- The name is shown whichever channel the patch is for.
unfoldable pub apply_channel_patch : ℕ → ChannelPatch → Page → Page
unfolding patched
apply_channel_patch id patch p = record p {
  settings_channel_name = or_else patch.name p.settings_channel_name;
  settings_channel = patch_shown id patch p.settings_channel;
  channels = map (patch_item id patch) p.channels;
}

abbrev pub is_enabled : ChannelItem → Bool
is_enabled x = x.channel.status

abbrev pub is_disabled : ChannelItem → Bool
is_disabled x = not x.channel.status

unfoldable pub enabled_count : Page → ℕ
enabled_count p = length (keep is_enabled p.channels)

unfoldable pub disabled_count : Page → ℕ
unfolding enabled_count
disabled_count p = length p.channels - enabled_count p

unfoldable pub first_disabled_index : List ChannelItem → Option ℕ
first_disabled_index channels = find_index is_disabled channels

unfoldable pub normalize_channel_sections : List ChannelItem → List ChannelItem
normalize_channel_sections list = keep is_enabled list ++ keep is_disabled list

abbrev toggled : ℕ → Option ℕ → Option ℕ
toggled id none = some id
toggled id (some old) = if old == id then none else some id

unfoldable pub toggle_channel_panel : ℕ → Page → Page
toggle_channel_panel id p = record p { expanded_channel_id = toggled id p.expanded_channel_id }

-- The argument of `refresh`: a range, or all time.
pub record RefreshParams : Type 0 where
  pub start : Text
  pub end : Text
  pub all_time : Bool

-- What `refresh` asks for.
unfoldable pub page_params : RefreshParams → Range
page_params r =
    if r.all_time
    then record no_range { all_time = some true }
    else record no_range { start = non_empty (trim r.start); end = non_empty (trim r.end) }

abbrev pub show_range : RefreshParams → Option ChannelsPageResponse → Page → Page
show_range r none p =
    if r.all_time then p else record p { usage_start = no_text; usage_end = no_text }
show_range r (some d) p =
    if r.all_time then p else record p { usage_start = d.start; usage_end = d.end }

abbrev pub channels_of : Option ChannelsPageResponse → List ChannelItem
channels_of none = []
channels_of (some d) = or_else d.channels []

-- A reload that fails keeps the table; the list is what `refresh` returns.
abbrev pub refreshed : RefreshParams → Outcome ChannelsPageResponse → Page → Page × List ChannelItem
refreshed r (loaded d) p =
    let list = normalize_channel_sections (channels_of d) in
    (record (show_range r d p) { channels = list; loading = false }, list)
refreshed r (failed message) p = (record p { loading = false }, [])

unfoldable pub refresh : RefreshParams → Reply ChannelsPageResponse → Page → Page × List ChannelItem
unfolding normalize_channel_sections
refresh r reply p = refreshed r (settle (codes "加载渠道失败") reply) (record p { loading = true })

unfoldable pub current_range : Page → RefreshParams
current_range p = record {
  start = trim p.usage_start;
  end = trim p.usage_end;
  all_time = p.usage_all_time;
}

-- `asked` is the page at the render whose function this is; `p` the page when it is called.
unfoldable pub refresh_with_current_range :
    Page → Reply ChannelsPageResponse → Page → Page × List ChannelItem
unfolding refresh current_range
refresh_with_current_range asked reply p = refresh (current_range asked) reply p

-- The timer behind a new range.
unfoldable pub on_range_timer : Reply ChannelsPageResponse → Page → Page
unfolding refresh_with_current_range
on_range_timer reply p =
    if p.usage_range_dirty
    then (refresh_with_current_range p reply (record p { usage_range_dirty = false })).0
    else p

unfoldable pub on_range_change : Text → Text → Page → Page
on_range_change start end p =
    let is_all = is_empty (trim start) && is_empty (trim end) in
    record p {
      usage_range_customized = true;
      usage_all_time = is_all;
      detail_granularity = if is_all then day else p.detail_granularity;
      usage_start = start;
      usage_end = end;
      usage_range_dirty = true;
    }

unfoldable pub on_range_reset : Page → Page
on_range_reset p = record p {
  usage_all_time = false;
  usage_range_customized = false;
  usage_start = no_text;
  usage_end = no_text;
  usage_range_dirty = true;
}
