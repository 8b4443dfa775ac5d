-- ===== src/Tests/ChannelPages.antt =====
-- The page of the channels at concrete inputs.
use revlm.Base.{ℕ, ◌≡◌, refl, true, false, none, some, [], ◌∷◌, codes, trim, find, pos, arith, All}
use revlm.Api.{Reply, answered, settle}
use revlm.Api.Channels.{Channel, hour, no_range}
use revlm.Api.ChannelGroups.{AdminChannelGroup, upsert_admin_channel_group_pointer}
use revlm.Channels.Csv.{parse_groups_csv}
use revlm.Channels.Page.{
  ChannelItem, ChannelsPageResponse, Page, initial, RefreshParams, refresh, ChannelPatch,
  apply_channel_patch,
}
use revlm.Channels.Page.Sections.{Reloads, IsParted, refresh-Reloads}
use revlm.Channels.Page.Patches.{Agrees, apply_channel_patch-Agrees, apply_channel_patch-unparted}
use revlm.Channels.Page.Settings.{
  has_id, open_channel_settings_modal, fresh_tab, update_of, form_error, save_common_settings,
}
use revlm.Channels.Page.SettingsLaws.{
  Carries, Refuses, save_common_settings-Carries, save_common_settings-Refuses,
}
use revlm.Channels.Series
use revlm.Channels.Series.{
  Inputs, TimeSeriesResponse, Query, World, receive, Reach, mount, next, answers,
}
use revlm.Channels.Series.Invariant.{IsCurrent, Reach-IsCurrent}
use revlm.Channels.Pointer.{
  Pointer, pointer_groups, pointer_group_options, on_open_pointer, on_submit_pointer,
}
use revlm.Channels.Pointer.Laws.{IsOffered, on_open_pointer-on_submit_pointer}

abbrev main_channel : Channel
main_channel = record {
  id = 3;
  kind = codes "anthropic";
  name = codes "main";
  groups = codes "vip";
  status = true;
  priority = pos 2;
  base_url = some (codes "https://a.example");
  api_key = some (codes "k");
  price_multiplier = none;
}

abbrev item : Channel → ChannelItem
item c = record {
  channel = c;
  in_use = false;
  usage = record {
    usd = codes "0";
    tokens = 0;
    cache_ratio = codes "0.0%";
    avg_first_token_latency = codes "-";
    tokens_per_second = codes "-";
  };
  runtime = record {
    available = false;
    fail_score = none;
    banned_until = none;
    banned_remaining = none;
    ban_streak = none;
    banned_active = false;
  };
}

abbrev spare_channel : Channel
spare_channel = record main_channel { id = 4; name = codes "spare" }

abbrev off_channel : Channel
off_channel = record main_channel { id = 5; status = false }

abbrev page_answer : Reply ChannelsPageResponse
page_answer = answered (record {
  success = true;
  message = none;
  body = some (record {
    start = codes "2024-01-01";
    end = codes "2024-01-02";
    channels = some (item off_channel ∷ item main_channel ∷ []);
  });
})

abbrev today : RefreshParams
today = record { start = []; end = []; all_time = false }

refresh-Reloads_example :
    Reloads (settle (codes "加载渠道失败") page_answer) initial (refresh today page_answer initial)
    × ((refresh today page_answer initial).0.loading ≡ false)
refresh-Reloads_example = refresh-Reloads today page_answer initial

abbrev shown : Page
shown = record (open_channel_settings_modal main_channel initial) {
  channels = item main_channel ∷ item spare_channel ∷ [];
}

abbrev turned_off : ChannelPatch
turned_off = record {
  name = none;
  status = some false;
  base_url = none;
  groups = none;
  priority = none;
  api_key = none;
}

apply_channel_patch-Agrees_example :
    Agrees
      (apply_channel_patch 3 turned_off shown).settings_channel
      (apply_channel_patch 3 turned_off shown).channels
unfolding open_channel_settings_modal
apply_channel_patch-Agrees_example =
    apply_channel_patch-Agrees 3 turned_off shown (item main_channel, refl, refl)

apply_channel_patch-unparted_example : ¬ IsParted (apply_channel_patch 3 turned_off shown).channels
apply_channel_patch-unparted_example =
    apply_channel_patch-unparted turned_off shown [] [] (item main_channel) (item spare_channel)
      refl refl (omega arith) refl

abbrev accepted : Reply ℕ
accepted = answered (record { success = true; message = none; body = none })

save_common_settings-Carries_example :
    ((save_common_settings 3 accepted shown fresh_tab).sent ≡ some (update_of 3 shown))
    × ((save_common_settings 3 accepted shown fresh_tab).tab.err ≡ [])
    × ((save_common_settings 3 accepted shown fresh_tab).tab.saving ≡ false)
    × ((y : ChannelItem) × (find
            (has_id 3)
            (save_common_settings 3 accepted shown fresh_tab).page.channels
          ≡ some y)
        × Carries (update_of 3 shown) y.channel)
unfolding form_error open_channel_settings_modal trim
save_common_settings-Carries_example =
    save_common_settings-Carries 3 accepted shown fresh_tab none (item main_channel) refl refl refl

save_common_settings-Refuses_example :
    Refuses 3
      (settle (codes "保存失败") accepted)
      initial
      (save_common_settings 3 accepted initial fresh_tab)
save_common_settings-Refuses_example = save_common_settings-Refuses 3 accepted initial fresh_tab

abbrev choice : Inputs
choice = record {
  expanded_channel_id = some 3;
  usage_all_time = false;
  usage_range_customized = true;
  usage_start = codes "2024-01-01";
  usage_end = codes "2024-01-02";
  detail_granularity = hour;
}

abbrev choice_query : Query
choice_query = record {
  channel_id = 3;
  range = record no_range { start = some (codes "2024-01-01"); end = some (codes "2024-01-02") };
  granularity = hour;
}

abbrev refused : Reply TimeSeriesResponse
refused = answered (record { success = false; message = some (codes "no"); body = none })

Reach-IsCurrent_example : IsCurrent (receive choice_query refused (Series.initial choice))
unfolding Series.effect trim
Reach-IsCurrent_example =
    Reach-IsCurrent
      (next (mount choice) (answers (Series.initial choice) choice_query refused refl))

abbrev vip : AdminChannelGroup
vip = record {
  id = 7;
  name = codes "vip";
  description = none;
  price_multiplier = codes "1";
  status = true;
  is_default = none;
  pointer_channel_id = none;
  pointer_channel_name = none;
  pointer_pinned = none;
}

abbrev pointer_page : Pointer
pointer_page = record { channel_groups = vip ∷ []; pointer_target = none; pointer_group_id = [] }

on_open_pointer-on_submit_pointer_example :
    (pointer_group_options (on_open_pointer main_channel pointer_page) ≡ vip ∷ [])
    × All (IsOffered (parse_groups_csv (codes "vip"))) (vip ∷ [])
    × (on_submit_pointer true (on_open_pointer main_channel pointer_page)
        ≡ some (upsert_admin_channel_group_pointer 7 3 (some true)))
unfolding pointer_groups trim
on_open_pointer-on_submit_pointer_example =
    on_open_pointer-on_submit_pointer main_channel pointer_page vip [] refl refl (omega arith)
