-- ===== src/Channels/Series/Invariant.antt =====
-- The statistics that are shown are those of the channel, the range and the steps that are chosen.
use revlm.Base.{◌≡◌, refl, ◌∙◌, ap, subst, true, Option, none, some, []}
use revlm.Api.{Reply, Outcome, loaded, failed, settle}
use revlm.Channels.Series.{
  Query, Detail, World, changes, answers, drops, Reach, mount, next, effect, started, receive,
  absorb, query_of, load_failed, nothing_shown, TimeSeriesResponse, put_aside,
}
use revlm.Api.Channels.{Granularity}

abbrev ShowsAnswer : Query → Option (Query × Reply TimeSeriesResponse) → Detail → Type 0
ShowsAnswer q none d = ⊥
ShowsAnswer q (some (a, reply)) d =
    (a ≡ q) × (d ≡ absorb q.granularity (settle load_failed reply) nothing_shown)

-- The first argument is the query of the present choice, the second the one that is waited for.
abbrev pub Shows :
    Option Query → Option Query → Option (Query × Reply TimeSeriesResponse) → Detail → Type 0
Shows none live answered d = (live ≡ none) × (d ≡ nothing_shown)
Shows (some q) none answered d = ShowsAnswer q answered d
Shows (some q) (some l) answered d = (d.series_loading ≡ true) × (d.series_err ≡ []) × (l ≡ q)

abbrev pub IsCurrent : World → Type 0
IsCurrent w = Shows (query_of w.inputs) w.live w.answered w.detail

started-Shows :
    (o : Option Query) (w : World)
    → Shows o (started o w).live (started o w).answered (started o w).detail
started-Shows none w = (refl, refl)
started-Shows (some q) w = (refl, refl, refl)

inputs-started : (o : Option Query) (w : World) → (started o w).inputs ≡ w.inputs
inputs-started none w = refl
inputs-started (some q) w = refl

effect-IsCurrent : (w : World) → IsCurrent (effect w)
unfolding effect
effect-IsCurrent w =
    let o = query_of w.inputs in
    let v = record w { live = none; stale = put_aside w.live w.stale } in
    rw (inputs-started o v) (started-Shows o v)

-- A page that waits shows no error, so the answer alone makes what is shown.
absorb_of_no_err :
    (g : Granularity) (o : Outcome TimeSeriesResponse) (d : Detail)
    → d.series_err ≡ []
    → absorb g o d ≡ absorb g o nothing_shown
absorb_of_no_err g (loaded none) d e = λ i. record (absorb g (loaded none) d) { series_err = e i }
absorb_of_no_err g (loaded (some r)) d e =
    λ i. record (absorb g (loaded (some r)) d) { series_err = e i }
absorb_of_no_err g (failed message) d e = refl

received-Shows :
    (o : Option Query) (q : Query) (reply : Reply TimeSeriesResponse)
    (a : Option (Query × Reply TimeSeriesResponse)) (d : Detail)
    → Shows o (some q) a d
    → Shows o none (some (q, reply)) (absorb q.granularity (settle load_failed reply) d)
received-Shows none q reply a d h = cc h.0
received-Shows (some c) q reply a d h = (
  h.2,
  absorb_of_no_err q.granularity (settle load_failed reply) d h.1
      ∙ ap (λ (c : Query). absorb c.granularity (settle load_failed reply) nothing_shown) h.2,
)

receive-IsCurrent :
    (q : Query) (reply : Reply TimeSeriesResponse) (w : World)
    → w.live ≡ some q
    → IsCurrent w
    → IsCurrent (receive q reply w)
unfolding receive
receive-IsCurrent q reply w e h =
    received-Shows (query_of w.inputs) q reply w.answered w.detail
      (subst (λ live. Shows (query_of w.inputs) live w.answered w.detail) e h)

-- However the administrator chooses and in whatever order the answers arrive: nothing is shown where no
-- channel is unfolded; where one is, the page waits for the query of the present choice alone, or what
-- it shows, a series or an error, is the answer to that query.
pub Reach-IsCurrent : {w : World} → Reach w → IsCurrent w
Reach-IsCurrent (mount i) =
    effect-IsCurrent
      (record { inputs = i; detail = nothing_shown; live = none; stale = []; answered = none })
Reach-IsCurrent (next r (changes w i)) = effect-IsCurrent (record w { inputs = i })
Reach-IsCurrent (next r (answers w q reply e)) = receive-IsCurrent q reply w e (Reach-IsCurrent r)
Reach-IsCurrent (next r (drops w before after q reply e)) = Reach-IsCurrent r
