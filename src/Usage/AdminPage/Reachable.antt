-- ===== src/Usage/AdminPage/Reachable.antt =====
-- The invariant of the admin usage page along every run.
use revlm.Base.{
  ℕ, ◌≡◌, refl, inl, inr, Option, none, some, List, [], ◌∷◌, arith, Bool-cases, All, All-append,
  All-without,
}
use revlm.Api.{Outcome, Reply, settle, loaded, failed}
use revlm.Usage.AdminQuery.{QueryState, PageQuery}
use revlm.Usage.AdminPage.{
  load_failed, UsageData, Page, RefreshOptions, plain, initial, initial_query, request, receive,
  absorb, fill_bounds,
}
use revlm.Usage.AdminPage.Handlers.{handle_toggle_event, receive_detail, absorb_detail}
use revlm.Usage.AdminPage.Steps.{
  handle, World, after_call, mounted, Step, act, toggle, answer, answer_detail, Reach, start, next,
}
use revlm.Usage.AdminPage.Invariant.{
  IsSearch, IsSearchQuery, AllOf, handle-IsSearch, request-IsSearchQuery,
}

fill_bounds-IsSearch :
    {W U E : Type 0} (sent : PageQuery) (d : UsageData W U E) (q : QueryState)
    → IsSearch q
    → IsSearch (fill_bounds sent d q)
fill_bounds-IsSearch sent d q h = elim (Bool-cases sent.all_time_active) [
  | inl all ↦ rw all h
  | inr bounded ↦
      rw bounded (record { user = h.user; channel = h.channel; model = h.model; cursor = h.cursor })
]

initial-IsSearch : IsSearch initial_query
initial-IsSearch = record { user = refl; channel = refl; model = refl; cursor = tt }

module _ {W U E D : Type 0} where
  absorb-IsSearch :
      (sent : PageQuery) (o : Outcome (UsageData W U E)) (p : Page W U E D)
      → IsSearch p.query
      → IsSearch (absorb sent o p).query
  absorb-IsSearch sent (loaded none) p h = h
  absorb-IsSearch sent (loaded (some d)) p h = fill_bounds-IsSearch sent d p.query h
  absorb-IsSearch sent (failed message) p h = h

  receive-IsSearch :
      (sent : PageQuery) (reply : Reply (UsageData W U E)) (p : Page W U E D)
      → IsSearch p.query
      → IsSearch (receive sent reply p).query
  unfolding receive
  receive-IsSearch sent reply p h = absorb-IsSearch sent (settle load_failed reply) p h

  query-absorb_detail :
      (id : ℕ) (o : Outcome D) (p : Page W U E D) → (absorb_detail id o p).query ≡ p.query
  query-absorb_detail id (loaded none) p = refl
  query-absorb_detail id (loaded (some d)) p = refl
  query-absorb_detail id (failed message) p = refl

  query-receive_detail :
      (id : ℕ) (reply : Reply D) (p : Page W U E D) → (receive_detail id reply p).query ≡ p.query
  unfolding receive_detail
  query-receive_detail id reply p = query-absorb_detail id _ p

  query-handle_toggle_event :
      (id : ℕ) (p : Page W U E D) → (handle_toggle_event id p).0.query ≡ p.query
  unfolding handle_toggle_event
  query-handle_toggle_event id p = ground arith

  -- The page and the queries that are under way.
  pub record IsSafe (w : World W U E D) : Type 0 where
    pub page : IsSearch w.page.query
    pub sent : All IsSearchQuery w.sent

  call-IsSafe :
      (old new : Page W U E D) (o : Option RefreshOptions) (sent : List PageQuery)
      → IsSearch new.query
      → AllOf o old
      → All IsSearchQuery sent
      → IsSafe (after_call old new o sent)
  call-IsSafe old new none sent h c a = record { page = h; sent = a }
  call-IsSafe old new (some o) sent h c a = record {
    page = h;
    sent = All-append IsSearchQuery sent (request old o ∷ []) a (c, tt);
  }

  Step-IsSafe : {w v : World W U E D} → Step w v → IsSafe w → IsSafe v
  Step-IsSafe (act w e) s =
      let h = handle-IsSearch e w.page s.page in
      call-IsSafe w.page (handle e w.page).0 (handle e w.page).1 w.sent h.0 h.1 s.sent
  Step-IsSafe (toggle w id) s = record {
    page = rw (query-handle_toggle_event id w.page) s.page;
    sent = s.sent;
  }
  Step-IsSafe (answer w xs ys q reply e) s = record {
    page = receive-IsSearch q reply w.page s.page;
    sent = All-without IsSearchQuery xs ys q (rw e at s.sent);
  }
  Step-IsSafe (answer_detail w id reply) s = record {
    page = rw (query-receive_detail id reply w.page) s.page;
    sent = s.sent;
  }

  mounted-IsSafe : IsSafe mounted
  mounted-IsSafe = record {
    page = initial-IsSearch;
    sent = (request-IsSearchQuery initial plain initial-IsSearch refl refl refl tt, tt);
  }

  -- However the user acts and in whatever order the answers arrive, the page filters by search texts
  -- alone and keeps at most one cursor, and so does every query that is under way.
  pub Reach-IsSafe : {w : World W U E D} → Reach w → IsSafe w
  Reach-IsSafe start = mounted-IsSafe
  Reach-IsSafe (next r s) = Step-IsSafe s (Reach-IsSafe r)
