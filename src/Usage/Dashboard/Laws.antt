-- ===== src/Usage/Dashboard/Laws.antt =====
-- What the page of the day shows.
use revlm.Base.{
  ◌≡◌, refl, sym, ap, subst, Bool, true, false, Option, none, some, [], ◌∷◌, if◌then◌else◌,
  Bool-cases, inl, inr, Text, codes,
}
use revlm.Api.{Reply, Outcome, loaded, failed, settle}
use revlm.Api.Channels.{Granularity, hour, day}
use revlm.Usage.Dashboard.{
  DashboardData, TimeSeriesResponse, Detail, World, hour_detail, begun, effect, absorb,
  series_failed, receive, absorb_data, receive_data, same, choose, Reach, mount, chooses, loads,
  answers,
}

abbrev nothing : Detail
nothing = record {
  series = [];
  series_start = [];
  series_end = [];
  series_loading = false;
  series_err = [];
}

abbrev pub Shows :
    Granularity
    → Bool
    → Option (Reply TimeSeriesResponse)
    → Option DashboardData
    → Text
    → Detail
    → Type 0
Shows hour live answered o err d = (d ≡ hour_detail o err) × (live ≡ false)
Shows day true answered o err d = (d.series_loading ≡ true) × (d.series_err ≡ [])
Shows day false none o err d = ⊥
Shows day false (some reply) o err d = d ≡ absorb (settle series_failed reply) nothing

abbrev pub IsShown : World → Type 0
IsShown w = Shows w.granularity w.live w.answered w.data_of_day w.err w.detail

begun-Shows :
    (g : Granularity) (w : World)
    → let v = begun g w in Shows g v.live v.answered v.data_of_day v.err v.detail
begun-Shows hour w = (refl, refl)
begun-Shows day w = (refl, refl)

granularity-begun : (g : Granularity) (w : World) → (begun g w).granularity ≡ w.granularity
granularity-begun hour w = refl
granularity-begun day w = refl

effect-IsShown : (w : World) → IsShown (effect w)
unfolding effect
effect-IsShown w = rw (granularity-begun w.granularity w) (begun-Shows w.granularity w)

choose-IsShown : (g : Granularity) (w : World) → IsShown w → IsShown (choose g w)
unfolding choose
choose-IsShown g w h = elim (Bool-cases (same w.granularity g)) [
  | inl kept ↦
      subst IsShown (ap (λ b. if b then w else effect (record w { granularity = g })) (sym kept)) h
  | inr other ↦
      subst IsShown (ap (λ b. if b then w else effect (record w { granularity = g })) (sym other))
        (effect-IsShown (record w { granularity = g }))
]

absorb_data-IsShown :
    (o : Outcome DashboardData) (w : World) → IsShown w → IsShown (absorb_data o w)
absorb_data-IsShown (loaded none) w h = h
absorb_data-IsShown (loaded (some d)) w h = effect-IsShown (record w { data_of_day = some d })
absorb_data-IsShown (failed []) w h = h
absorb_data-IsShown (failed (c ∷ m)) w h =
    effect-IsShown (record w { data_of_day = none; err = c ∷ m })

receive_data-IsShown :
    (reply : Reply DashboardData) (w : World) → IsShown w → IsShown (receive_data reply w)
unfolding receive_data
receive_data-IsShown reply w h =
    absorb_data-IsShown (settle (codes "加载失败") reply) (record w { load_waits = false }) h

absorb_of_no_err :
    (o : Outcome TimeSeriesResponse) (d : Detail)
    → d.series_err ≡ []
    → absorb o d ≡ absorb o nothing
absorb_of_no_err (loaded none) d e = λ i. record (absorb (loaded none) d) { series_err = e i }
absorb_of_no_err (loaded (some r)) d e =
    λ i. record (absorb (loaded (some r)) d) { series_err = e i }
absorb_of_no_err (failed message) d e = refl

received-Shows :
    (g : Granularity) (reply : Reply TimeSeriesResponse) (a : Option (Reply TimeSeriesResponse))
    (o : Option DashboardData) (err : Text) (d : Detail)
    → Shows g true a o err d
    → Shows g false (some reply) o err (absorb (settle series_failed reply) d)
received-Shows hour reply a o err d h = cc h.1
received-Shows day reply a o err d h = absorb_of_no_err (settle series_failed reply) d h.1

receive-IsShown :
    (reply : Reply TimeSeriesResponse) (w : World)
    → w.live ≡ true
    → IsShown w
    → IsShown (receive reply w)
unfolding receive
receive-IsShown reply w e h =
    received-Shows w.granularity reply w.answered w.data_of_day w.err w.detail
      (subst (λ live. Shows w.granularity live w.answered w.data_of_day w.err w.detail) e h)

-- However one chooses and in whatever order the answers arrive: by the hour the page shows the series of
-- the day's data, and by the day it waits for a series with no error, or shows what the last query was
-- answered with.
pub Reach-IsShown : {w : World} → Reach w → IsShown w
Reach-IsShown mount = effect-IsShown _
Reach-IsShown (chooses g r) = choose-IsShown g _ (Reach-IsShown r)
Reach-IsShown (loads reply e r) = receive_data-IsShown reply _ (Reach-IsShown r)
Reach-IsShown (answers reply e r) = receive-IsShown reply _ e (Reach-IsShown r)
