-- ===== src/Channels/Series.antt =====
-- The statistics of the channel that is unfolded in frontend/src/pages/admin/ChannelsPage.tsx: the
-- effect that asks for its time series, and the answers. Each run of the effect has a flag `active`,
-- which the next run takes away: `live` is the query of the run that has it, where its answer is not
-- there yet, and `stale` are the others that wait.
pub mod Invariant
use revlm.Base.{
  ℕ, zero, suc, ◌≡◌, Bool, true, false, not, ◌&&◌, ◌||◌, Option, none, some, List, [], ◌∷◌, ◌++◌,
  if◌then◌else◌, or_else, Text, codes, trim, is_empty,
}
use revlm.Api.{Reply, Outcome, loaded, failed, settle, or_text, non_empty}
use revlm.Api.Channels.{Granularity, hour, day, Range, no_range}
use revlm.Dates.Series.{Point, fill_daily_buckets}

-- The numbers of a point, each by its print.
pub record Measured : Type 0 where
  pub usd : Text
  pub tokens : Text
  pub cache_ratio : Text
  pub avg_first_token_latency : Text
  pub tokens_per_second : Text

abbrev zero_point : Text → Point Measured
zero_point bucket = record {
  bucket = bucket;
  rest = record {
    usd = codes "0";
    tokens = codes "0";
    cache_ratio = codes "0";
    avg_first_token_latency = codes "0";
    tokens_per_second = codes "0";
  };
}

pub record TimeSeriesResponse : Type 0 where
  pub start : Text
  pub end : Text
  pub points : Option (List (Point Measured))

-- What the effect depends on.
pub record Inputs : Type 0 where
  pub expanded_channel_id : Option ℕ
  pub usage_all_time : Bool
  pub usage_range_customized : Bool
  pub usage_start : Text
  pub usage_end : Text
  pub detail_granularity : Granularity

pub record Query : Type 0 where
  pub channel_id : ℕ
  pub range : Range
  pub granularity : Granularity

pub record Detail : Type 0 where
  pub series : List (Point Measured)
  pub series_start : Text
  pub series_end : Text
  pub series_loading : Bool
  pub series_err : Text

abbrev pub is_day : Granularity → Bool
is_day day = true
is_day hour = false

unfoldable pub all_time_active : Inputs → Bool
all_time_active i = i.usage_all_time && is_empty (trim i.usage_start) && is_empty (trim i.usage_end)

-- By the day, and with no range of the user's choice, the server chooses the range.
unfoldable pub implicit_day_range : Inputs → Bool
unfolding all_time_active
implicit_day_range i =
    is_day i.detail_granularity && not i.usage_range_customized && not (all_time_active i)

unfoldable pub query_range : Inputs → Range
unfolding implicit_day_range
query_range i = record {
  start =
      if all_time_active i || implicit_day_range i then none else non_empty (trim i.usage_start);
  end = if all_time_active i || implicit_day_range i then none else non_empty (trim i.usage_end);
  all_time = if all_time_active i then some true else none;
}

abbrev query_by : Option ℕ → Inputs → Option Query
query_by none i = none
query_by (some zero) i = none
query_by (some (suc id)) i =
    some (record { channel_id = suc id; range = query_range i; granularity = i.detail_granularity })

-- What the effect asks for; no channel, or 0, is nothing.
unfoldable pub query_of : Inputs → Option Query
unfolding query_range
query_of i = query_by i.expanded_channel_id i

-- `fillDailyBuckets` always returns a list; see Dates/Series.
abbrev filled : Granularity → List (Point Measured) → Text → Text → List (Point Measured)
filled day points start end = or_else (fill_daily_buckets points start end zero_point) []
filled hour points start end = points

abbrev show : Granularity → Text → Text → List (Point Measured) → Detail → Detail
show g start end points d = record {
  series = filled g points start end;
  series_start = start;
  series_end = end;
  series_loading = false;
  series_err = d.series_err;
}

abbrev pub absorb : Granularity → Outcome TimeSeriesResponse → Detail → Detail
absorb g (loaded none) d = show g [] [] [] d
absorb g (loaded (some r)) d = show g r.start r.end (or_else r.points []) d
absorb g (failed message) d = record {
  series = [];
  series_start = [];
  series_end = [];
  series_loading = false;
  series_err = message;
}

abbrev pub nothing_shown : Detail
nothing_shown = record {
  series = [];
  series_start = [];
  series_end = [];
  series_loading = false;
  series_err = [];
}

-- The page, the queries that wait, and the query that was answered last, with its answer.
pub record World : Type 0 where
  pub inputs : Inputs
  pub detail : Detail
  pub live : Option Query
  pub stale : List Query
  pub answered : Option (Query × Reply TimeSeriesResponse)

abbrev pub put_aside : Option Query → List Query → List Query
put_aside none qs = qs
put_aside (some q) qs = q ∷ qs

abbrev pub started : Option Query → World → World
started none w = record w { detail = nothing_shown; live = none; answered = none }
started (some q) w = record w {
  detail = record (w.detail) { series_err = []; series_loading = true };
  live = some q;
}

-- A run of the effect, behind the clean-up of the run before it.
unfoldable pub effect : World → World
unfolding query_of
effect w = started (query_of w.inputs) (record w { live = none; stale = put_aside w.live w.stale })

abbrev pub load_failed : Text
load_failed = codes "加载时间序列失败"

-- The answer to the query of the run that is active.
unfoldable pub receive : Query → Reply TimeSeriesResponse → World → World
receive q reply w = record w {
  detail = absorb q.granularity (settle load_failed reply) w.detail;
  live = none;
  answered = some (q, reply);
}

pub data Step : World → World → Type 0 where
  changes : (w : World) (i : Inputs) → Step w (effect (record w { inputs = i }))
  answers :
      (w : World) (q : Query) (reply : Reply TimeSeriesResponse)
      → w.live ≡ some q
      → Step w (receive q reply w)
  -- An answer to a run that is not active is dropped.
  drops :
      (w : World) (before after : List Query) (q : Query) (reply : Reply TimeSeriesResponse)
      → w.stale ≡ before ++ q ∷ after
      → Step w (record w { stale = before ++ after })

abbrev pub initial : Inputs → World
initial i =
    effect (record { inputs = i; detail = nothing_shown; live = none; stale = []; answered = none })

pub data Reach : World → Type 0 where
  mount : (i : Inputs) → Reach (initial i)
  next : {w v : World} → Reach w → Step w v → Reach v
