-- ===== src/Api/Usage.antt =====
-- The requests that only read: frontend/src/api/usage.ts, admin/usage.ts, dashboard.ts,
-- admin/dashboard.ts, models.ts and billing.ts, and the time zone of timezone.ts. `tz` is what
-- `browserTimeZone()` gives.
pub mod Laws
use revlm.Base.{
  ℕ, zero, suc, Bool, true, false, Option, none, some, ◌++◌, Text, codes, to_text, trim,
}
use mathlib.Core.Option
use revlm.Api.{non_empty}
use revlm.Api.Http.{get, chars, number, flag, Request, given, bare}
use revlm.Api.Channels.{Granularity, granularity_text, Range, range_fields}
use revlm.Usage.AdminQuery.{Params}

-- `x || undefined`, of a text and of a number.
abbrev pub text_or_none : Option Text → Option Text
text_or_none none = none
text_or_none (some t) = non_empty t

abbrev pub id_or_none : Option ℕ → Option ℕ
id_or_none none = none
id_or_none (some zero) = none
id_or_none (some (suc n)) = some (suc n)

-- `allTime ? true : undefined`
abbrev pub true_or_none : Option Bool → Option Bool
true_or_none (some true) = some true
true_or_none (some false) = none
true_or_none none = none

-- `resolved` is the zone of `Intl.DateTimeFormat`, or none where it throws or has none.
unfoldable pub browser_time_zone : Option Text → Option Text
browser_time_zone none = none
browser_time_zone (some tz) = non_empty (trim tz)

unfoldable pub get_usage_windows :
    (start end : Option Text) (token_id : Option ℕ) (all_time : Option Bool) (tz : Option Text)
    → Request
get_usage_windows start end token_id all_time tz =
    record (bare get (codes "/api/request/windows")) {
      params =
          given "start" (Option.map chars (text_or_none start))
          ++ given "end" (Option.map chars (text_or_none end))
          ++ given "token_id" (Option.map number (id_or_none token_id))
          ++ given "all_time" (Option.map flag (true_or_none all_time))
          ++ given "tz" (Option.map chars tz);
    }

pub record EventParams : Type 0 where
  pub limit : Option ℕ
  pub before_id : Option ℕ
  pub start : Option Text
  pub end : Option Text
  pub token_id : Option ℕ
  pub index : Option Text
  pub q : Option Text
  pub q_key : Option Text
  pub q_model : Option Text

unfoldable pub get_usage_events : EventParams → Option Text → Request
get_usage_events params tz = record (bare get (codes "/api/request/events")) {
  params =
      given "limit" (Option.map number params.limit)
      ++ given "before_id" (Option.map number params.before_id)
      ++ given "start" (Option.map chars params.start)
      ++ given "end" (Option.map chars params.end)
      ++ given "token_id" (Option.map number params.token_id)
      ++ given "index" (Option.map chars params.index)
      ++ given "q" (Option.map chars params.q)
      ++ given "q_key" (Option.map chars params.q_key)
      ++ given "q_model" (Option.map chars params.q_model)
      ++ given "tz" (Option.map chars tz);
}

unfoldable pub get_usage_time_series :
    (start end : Option Text) (granularity : Option Granularity) (token_id : Option ℕ)
    (all_time : Option Bool) (tz : Option Text)
    → Request
get_usage_time_series start end granularity token_id all_time tz =
    record (bare get (codes "/api/request/timeseries")) {
      params =
          given "start" (Option.map chars (text_or_none start))
          ++ given "end" (Option.map chars (text_or_none end))
          ++ given "granularity" (Option.map (λ g. chars (granularity_text g)) granularity)
          ++ given "token_id" (Option.map number (id_or_none token_id))
          ++ given "all_time" (Option.map flag (true_or_none all_time))
          ++ given "tz" (Option.map chars tz);
    }

unfoldable pub get_usage_event_detail : ℕ → Option ℕ → Request
get_usage_event_detail event_id token_id =
    record (bare get (codes "/api/request/events/" ++ to_text event_id ++ codes "/detail")) {
      params = given "token_id" (Option.map number (id_or_none token_id));
    }

unfoldable pub get_admin_usage_page : Params → Request
get_admin_usage_page params = record (bare get (codes "/api/admin/request")) {
  params =
      given "start" (Option.map chars params.start)
      ++ given "end" (Option.map chars params.end)
      ++ given "all_time" (Option.map flag params.all_time)
      ++ given "limit" (some (number params.limit))
      ++ given "before_id" (Option.map number params.before_id)
      ++ given "after_id" (Option.map number params.after_id)
      ++ given "user_id" (Option.map number params.user_id)
      ++ given "channel_id" (Option.map number params.channel_id)
      ++ given "model" (Option.map chars params.model)
      ++ given "index" (Option.map chars params.index)
      ++ given "q_user" (Option.map chars params.q_user)
      ++ given "q_channel" (Option.map chars params.q_channel)
      ++ given "q_model" (Option.map chars params.q_model)
      ++ given "summary" (Option.map flag params.summary);
}

unfoldable get_admin_usage_event_detail : ℕ → Request
get_admin_usage_event_detail event_id =
    bare get (codes "/api/admin/request/events/" ++ to_text event_id ++ codes "/detail")

unfoldable get_admin_usage_time_series : Range → Option Granularity → Request
get_admin_usage_time_series params granularity =
    record (bare get (codes "/api/admin/request/timeseries")) {
      params =
          range_fields params
          ++ given "granularity" (Option.map (λ g. chars (granularity_text g)) granularity);
    }

unfoldable pub get_dashboard : Option Text → Request
get_dashboard tz = record (bare get (codes "/api/dashboard")) {
  params = given "tz" (Option.map chars tz);
}

unfoldable get_admin_dashboard : Request
get_admin_dashboard = bare get (codes "/api/admin/dashboard")

unfoldable list_user_models_detail : Request
list_user_models_detail = bare get (codes "/api/user/models/detail")

unfoldable get_balance : Request
get_balance = bare get (codes "/api/billing/balance")
