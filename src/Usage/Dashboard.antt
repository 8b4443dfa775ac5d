-- ===== src/Usage/Dashboard.antt =====
-- frontend/src/pages/DashboardPage.tsx: the data of the day, which the first render loads, and the
-- series, by the hour from that data and by the day from a query of its own. An answer to a run of the
-- effect that is not active changes nothing. The numbers of a point stand as their prints.
pub mod Laws
use revlm.Base.{
  ◌≡◌, Bool, true, false, Option, none, some, List, [], if◌then◌else◌, or_else, is_empty, Text,
  codes,
}
use revlm.Api.{Reply, Outcome, loaded, failed, settle}
use revlm.Api.Channels.{Granularity, hour, day}
use revlm.Dates.Series.{Point, fill_daily_buckets}

pub record Measured : Type 0 where
  pub requests : Text
  pub tokens : Text
  pub usd : Text
  pub cache_ratio : Text
  pub avg_first_token_latency : Text
  pub tokens_per_second : Text

abbrev zero_point : Text → Point Measured
zero_point bucket = record {
  bucket = bucket;
  rest = record {
    requests = codes "0";
    tokens = codes "0";
    usd = codes "0";
    cache_ratio = codes "0";
    avg_first_token_latency = codes "0";
    tokens_per_second = codes "0";
  };
}

-- `DashboardData`, as far as the series reads it.
pub record DashboardData : Type 0 where
  pub today_since : Text
  pub today_until : Text
  pub time_series_stats : List (Point Measured)

pub record TimeSeriesResponse : Type 0 where
  pub start : Text
  pub end : Text
  pub points : Option (List (Point Measured))

pub record Detail : Type 0 where
  pub series : List (Point Measured)
  pub series_start : Text
  pub series_end : Text
  pub series_loading : Bool
  pub series_err : Text

-- `live` says that the active run of the effect waits for its answer; `answered` is the answer that it
-- got.
pub record World : Type 0 where
  pub data_of_day : Option DashboardData
  pub err : Text
  pub granularity : Granularity
  pub detail : Detail
  pub load_waits : Bool
  pub live : Bool
  pub answered : Option (Reply TimeSeriesResponse)

abbrev pub hour_detail : Option DashboardData → Text → Detail
hour_detail none err = record {
  series = [];
  series_start = [];
  series_end = [];
  series_loading = is_empty err;
  series_err = [];
}
hour_detail (some d) err = record {
  series = d.time_series_stats;
  series_start = d.today_since;
  series_end = d.today_until;
  series_loading = false;
  series_err = [];
}

abbrev pub begun : Granularity → World → World
begun hour w = record w { detail = hour_detail w.data_of_day w.err; live = false }
begun day w = record w {
  detail = record (w.detail) { series_err = []; series_loading = true };
  live = true;
  answered = none;
}

-- The effect on the series.
unfoldable pub effect : World → World
effect w = begun w.granularity w

abbrev show : Text → Text → List (Point Measured) → Detail → Detail
show start end points d = record {
  series = or_else (fill_daily_buckets points start end zero_point) [];
  series_start = start;
  series_end = end;
  series_loading = false;
  series_err = d.series_err;
}

abbrev pub absorb : Outcome TimeSeriesResponse → Detail → Detail
absorb (loaded none) d = show [] [] [] d
absorb (loaded (some r)) d = show r.start r.end (or_else r.points []) d
absorb (failed message) d = record {
  series = [];
  series_start = [];
  series_end = [];
  series_loading = false;
  series_err = message;
}

abbrev pub series_failed : Text
series_failed = codes "时间序列加载失败"

-- The answer to the query of the active run, which is one by the day.
unfoldable pub receive : Reply TimeSeriesResponse → World → World
receive reply w = record w {
  detail = absorb (settle series_failed reply) w.detail;
  live = false;
  answered = some reply;
}

-- The data of the day, which were null, are there: the effect runs if they or the error are others
-- than before.
abbrev pub absorb_data : Outcome DashboardData → World → World
absorb_data (loaded none) w = w
absorb_data (loaded (some d)) w = effect (record w { data_of_day = some d })
absorb_data (failed message) w =
    if is_empty message then w else effect (record w { data_of_day = none; err = message })

unfoldable pub receive_data : Reply DashboardData → World → World
unfolding effect
receive_data reply w = absorb_data (settle (codes "加载失败") reply) (record w { load_waits = false })

abbrev pub same : Granularity → Granularity → Bool
same hour hour = true
same day day = true
same hour day = false
same day hour = false

unfoldable pub choose : Granularity → World → World
unfolding effect
choose g w = if same w.granularity g then w else effect (record w { granularity = g })

abbrev pub initial : World
initial = effect (record {
  data_of_day = none;
  err = [];
  granularity = hour;
  detail = record {
    series = [];
    series_start = [];
    series_end = [];
    series_loading = false;
    series_err = [];
  };
  load_waits = true;
  live = false;
  answered = none;
})

pub data Reach : World → Type 0 where
  mount : Reach initial
  chooses : {w : World} (g : Granularity) → Reach w → Reach (choose g w)
  loads :
      {w : World} (reply : Reply DashboardData)
      → w.load_waits ≡ true
      → Reach w
      → Reach (receive_data reply w)
  answers :
      {w : World} (reply : Reply TimeSeriesResponse)
      → w.live ≡ true
      → Reach w
      → Reach (receive reply w)
