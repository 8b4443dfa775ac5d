-- ===== src/Api/Channels.antt =====
-- The requests of frontend/src/api/channels.ts. A number that may have a fraction stands as its print.
pub mod Routes
use revlm.Base.{ℕ, ℤ, Bool, Option, none, some, List, ◌++◌, map, or_else, Text, codes, to_text}
use mathlib.Core.Option
use revlm.Api.Http.{
  Method, get, post, put, delete, Field, chars, number, integer, decimal, flag, Body, fields,
  Request, given, call, bare,
}

pub record Channel : Type 0 where
  pub id : ℕ
  pub kind : Text
  pub name : Text
  pub groups : Text
  pub status : Bool
  pub priority : ℤ
  pub base_url : Option Text
  pub api_key : Option Text
  pub price_multiplier : Option Text

pub data Granularity : Type 0 where
  hour : Granularity
  day : Granularity

abbrev pub granularity_text : Granularity → Text
granularity_text hour = codes "hour"
granularity_text day = codes "day"

pub record Range : Type 0 where
  pub start : Option Text
  pub end : Option Text
  pub all_time : Option Bool

abbrev pub range_fields : Range → List (Text × Field)
range_fields r =
    given "start" (Option.map chars r.start)
    ++ given "end" (Option.map chars r.end)
    ++ given "all_time" (Option.map flag r.all_time)

pub record CreateChannelRequest : Type 0 where
  pub kind : Text
  pub name : Text
  pub groups : Option Text
  pub base_url : Text
  pub key : Option Text
  pub priority : Option ℤ
  pub price_multiplier : Option Text

pub record UpdateChannelRequest : Type 0 where
  pub id : ℕ
  pub name : Option Text
  pub groups : Option Text
  pub base_url : Option Text
  pub key : Option Text
  pub status : Option Bool
  pub priority : Option ℤ
  pub price_multiplier : Option Text

abbrev pub no_range : Range
no_range = record { start = none; end = none; all_time = none }

unfoldable pub get_channels_page : Option Range → Request
get_channels_page params = record (bare get (codes "/api/channel/page")) {
  params = range_fields (or_else params no_range);
}

unfoldable pub get_channel_time_series : ℕ → Range → Option Granularity → Request
get_channel_time_series channel_id params granularity =
    record (bare get (codes "/api/channel/" ++ to_text channel_id ++ codes "/timeseries")) {
      params =
          range_fields params
          ++ given "granularity" (Option.map (λ g. chars (granularity_text g)) granularity);
    }

unfoldable pub create_channel : CreateChannelRequest → Request
create_channel req = call post (codes "/api/channel") (
    fields (
      given "type" (some (chars req.kind))
      ++ given "name" (some (chars req.name))
      ++ given "groups" (Option.map chars req.groups)
      ++ given "base_url" (some (chars req.base_url))
      ++ given "key" (Option.map chars req.key)
      ++ given "priority" (Option.map integer req.priority)
      ++ given "price_multiplier" (Option.map decimal req.price_multiplier)))

unfoldable pub update_channel : UpdateChannelRequest → Request
update_channel req = call put (codes "/api/channel") (
    fields (
      given "id" (some (number req.id))
      ++ given "name" (Option.map chars req.name)
      ++ given "groups" (Option.map chars req.groups)
      ++ given "base_url" (Option.map chars req.base_url)
      ++ given "key" (Option.map chars req.key)
      ++ given "status" (Option.map flag req.status)
      ++ given "priority" (Option.map integer req.priority)
      ++ given "price_multiplier" (Option.map decimal req.price_multiplier)))

unfoldable pub delete_channel : ℕ → Request
delete_channel channel_id = bare delete (codes "/api/channel/" ++ to_text channel_id)
