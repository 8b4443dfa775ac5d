-- ===== src/Usage/UserPage/Laws.antt =====
-- What the usage page asks for, and how its paging and its bounds behave.
use revlm.Base.{
  ℕ, arith, ◌≡◌, refl, ap, ◌≢◌, ◌↔◌, inl, inr, Bool, true, false, not, ◌&&◌, Option, none, some,
  List, [], ◌∷◌, ◌++◌, if◌then◌else◌, Bool-cases, or_else, is_some, Text, is_empty, trim,
}
use revlm.Api.{ApiResponse, or_text, non_empty}
use revlm.Usage.AdminQuery.{positive, join_parts, index_part}
use revlm.Usage.Labels.{Moment, format_local_date}
use revlm.Usage.UserPage.Handlers.{without_last, last, on_prev_page, on_next_page, go_next}
use revlm.Usage.UserPage.{
  Window, EventsPage, Page, no_override, Refresh, Sent, Answers, both, error, thrown, first,
  request, receive, fill_from, fill_bounds,
}

last-append : (xs : List ℕ) (x : ℕ) → last (xs ++ x ∷ []) ≡ some x
unfolding last
last-append [] x = refl
last-append (y ∷ []) x = refl
last-append (y ∷ z ∷ xs) x = last-append (z ∷ xs) x

without_last-append : (xs : List ℕ) (x : ℕ) → without_last (xs ++ x ∷ []) ≡ xs
unfolding without_last
without_last-append [] x = refl
without_last-append (y ∷ []) x = refl
without_last-append (y ∷ z ∷ xs) x = ap (◌∷◌ y) (without_last-append (z ∷ xs) x)

-- The calls that one `refresh` makes: the index lists the search texts that are sent; both calls ask
-- for the same range; and all time is asked for with no bounds alone.
pub record AsksFor (s : Sent) : Type 0 where
  pub index :
      s.index
      ≡ join_parts (index_part (is_some s.q_key) "key" ++ index_part (is_some s.q_model) "model")
  pub same_start : s.start ≡ s.window_start
  pub same_end : s.end ≡ s.window_end
  pub all_time : s.all_time_active ≡ true → (s.window_start ≡ none) × (s.window_end ≡ none)

start_lem :
    (b : Bool) (s e : Text)
    → (if b && is_empty s && is_empty e then none else non_empty s) ≡ non_empty s
start_lem true [] [] = refl
start_lem true [] (c ∷ e) = refl
start_lem true (c ∷ s) e = refl
start_lem false s e = refl

end_lem :
    (b : Bool) (s e : Text)
    → (if b && is_empty s && is_empty e then none else non_empty e) ≡ non_empty e
end_lem true [] [] = refl
end_lem true [] (c ∷ e) = refl
end_lem true (c ∷ s) e = refl
end_lem false s e = refl

all_time_lem :
    (b : Bool) (s e : Text)
    → (b && is_empty s && is_empty e) ≡ true
    → (non_empty s ≡ none) × (non_empty e ≡ none)
all_time_lem true [] [] h = (refl, refl)
all_time_lem true [] (c ∷ e) h = cc
all_time_lem true (c ∷ s) e h = cc
all_time_lem false s e h = cc

is_some-non_empty : (t : Text) → is_some (non_empty t) ≡ not (is_empty t)
is_some-non_empty [] = refl
is_some-non_empty (c ∷ t) = refl

or_text-ne_right : (s d : Text) → d ≢ [] → or_text s d ≢ []
or_text-ne_right [] d h = h
or_text-ne_right (c ∷ s) d h = λ e. cc

-- What stands in the place of a bound that was blank, and else the bound on the page.
abbrev pub blank_or : Text → Text → Text → Text
blank_or [] new old = new
blank_or (c ∷ t) new old = old

fill_eq :
    (asked new old : Text)
    → new ≢ []
    → (if is_empty asked && not (is_empty new) then new else old) ≡ blank_or asked new old
fill_eq [] [] old h = absurd (h refl)
fill_eq [] (c ∷ new) old h = refl
fill_eq (c ∷ asked) new old h = refl

all_time_cases :
    (b : Bool) (s e : Text)
    → ((b && is_empty s && is_empty e) ≡ true) ↔ ((b ≡ true) × (s ≡ []) × (e ≡ []))
all_time_cases true [] [] = (λ h. (refl, refl, refl), λ h. refl)
all_time_cases true [] (c ∷ e) = (λ h. cc, λ h. cc)
all_time_cases true (c ∷ s) e = (λ h. cc, λ h. cc)
all_time_cases false s e = (λ h. cc, λ h. cc)

false_of_not : {b : Bool} → ¬ (b ≡ true) → b ≡ false
false_of_not {b} h = ground (arith, h)

module _ {W E D : Type 0} where
  fill_from-stack :
      (read : Text → Option Moment) (sent : Sent) (o : Option (Window W)) (p : Page W E D)
      → (fill_from read sent o p).before_stack ≡ p.before_stack
  fill_from-stack read sent none p = refl
  fill_from-stack read sent (some w) p = elim (Bool-cases sent.all_time_active) [
    | inl all ↦ rw all refl
    | inr bounded ↦ rw bounded refl
  ]

  receive-stack :
      (read : Text → Option Moment) (sent : Sent) (a : Answers W E) (p : Page W E D)
      → (receive read sent a p).before_stack ≡ p.before_stack
  unfolding receive
  receive-stack read sent (both w e) p = elim (Bool-cases w.success) [
    | inl windows ↦ elim (Bool-cases e.success) [
      | inl events ↦ simp (windows, events) (fill_from-stack read sent (first w.body) _)
      | inr refused ↦ simp (windows, refused) refl
    ]
    | inr refused ↦ simp refused refl
  ]
  receive-stack read sent (error message) p = refl
  receive-stack read sent thrown p = refl

  -- Where there is a next page, a step to it asks for the events before its identifier; whatever the
  -- answers to `sent` are, a step back then restores the stack and asks for the page before.
  pub on_prev_page-on_next_page :
      (p : Page W E D) (id : ℕ) (read : Text → Option Moment) (sent : Sent) (a : Answers W E)
      → positive p.next_before_id ≡ some id
      → ((on_next_page p).1 ≡ some (record { current_before_id = some id; override = no_override }))
        × ((on_prev_page (receive read sent a (on_next_page p).0)).0.before_stack ≡ p.before_stack)
        × ((on_prev_page (receive read sent a (on_next_page p).0)).1
            ≡ record { current_before_id = last p.before_stack; override = no_override })
  unfolding on_next_page on_prev_page
  on_prev_page-on_next_page p id read sent a h =
      let stack = receive-stack read sent a (go_next (some id) p).0 in
      let dropped = without_last-append p.before_stack id in
      rw (h, stack, dropped) (refl, refl, refl)

  -- Whatever the state of the page, the call and its override: the index lists the search texts that
  -- are sent, the windows and the events are asked for over the same range, and a call for all time
  -- has no bounds.
  pub request_lem : (p : Page W E D) (r : Refresh) → AsksFor (request p r)
  unfolding request
  request_lem p r = record {
    index = simp is_some-non_empty refl;
    same_start = start_lem (or_else r.override.all_time p.all_time) _ _;
    same_end = end_lem (or_else r.override.all_time p.all_time) _ _;
    all_time = all_time_lem (or_else r.override.all_time p.all_time) _ _;
  }

  -- A call without override.
  abbrev pub sent_by : Page W E D → Option ℕ → Sent
  sent_by p before = request p (record { current_before_id = before; override = no_override })

  -- The call that the page `q` makes asks for all time: that is on, and both bounds are blank.
  abbrev pub AsksAllTime : Page W E D → Refresh → Type 0
  AsksAllTime q r =
      (or_else r.override.all_time q.all_time ≡ true)
      × (trim (or_else r.override.start q.start) ≡ [])
      × (trim (or_else r.override.end q.end) ≡ [])

  active_iff :
      (q : Page W E D) (r : Refresh) → ((request q r).all_time_active ≡ true) ↔ AsksAllTime q r
  unfolding request
  active_iff q r =
      all_time_cases (or_else r.override.all_time q.all_time)
        (trim (or_else r.override.start q.start)) (trim (or_else r.override.end q.end))

  -- The bounds of `t`, of `q` the page at the call, of `p` the page at the answer, and of the day on
  -- which the first window begins.
  pub record Fills (q : Page W E D) (r : Refresh) (day0 : Text) (p t : Page W E D) : Type 0 where
    pub all_time : AsksAllTime q r → (t.start ≡ p.start) × (t.end ≡ p.end)
    pub start :
        ¬ AsksAllTime q r
        → t.start ≡ blank_or (trim (or_else r.override.start q.start)) day0 p.start
    pub end :
        ¬ AsksAllTime q r
        → t.end
          ≡ blank_or
              (trim (or_else r.override.end q.end))
              (or_text (trim (or_else r.override.start q.start)) day0)
              p.end

  -- The bounds that the answers to the call fill.
  request-fill :
      (q p : Page W E D) (r : Refresh) (day0 : Text)
      → day0 ≢ []
      → let start = trim (or_else r.override.start q.start) in
        let end = trim (or_else r.override.end q.end) in
        ((fill_bounds (request q r) day0 p).start ≡ blank_or start day0 p.start)
        × ((fill_bounds (request q r) day0 p).end ≡ blank_or end (or_text start day0) p.end)
  unfolding request
  request-fill q p r day0 d =
      let start = trim (or_else r.override.start q.start) in
      (
        fill_eq start day0 p.start d,
        fill_eq (trim (or_else r.override.end q.end)) (or_text start day0) p.end
            (or_text-ne_right start day0 d),
      )

  -- Whatever call a page makes and whatever the page has become at the answers: where both succeed and
  -- the first window begins on a day that can be read, a call for all time leaves the bounds; any
  -- other one sets the start to that day if it asked with a blank start, and sets the end to the
  -- start that it asked with, or to that day if that is blank, if it asked with a blank end; a bound
  -- that it asked with stays as the page has it.
  pub receive-Fills :
      (read : Text → Option Moment) (q p : Page W E D) (r : Refresh)
      (w : ApiResponse (List (Window W))) (e : ApiResponse (EventsPage E)) (window : Window W)
      → w.success ≡ true
      → e.success ≡ true
      → first w.body ≡ some window
      → format_local_date read window.since ≢ []
      → Fills q r (format_local_date read window.since) p (receive read (request q r) (both w e) p)
  unfolding receive
  receive-Fills read q p r w e window ws es f d =
      let filled = request-fill q p r _ d in
      record {
        all_time = λ asks. let on = (active_iff q r).1 asks in simp (ws, es, f, on) (refl, refl);
        start = λ not_all.
            let off = false_of_not (λ on. not_all ((active_iff q r).0 on)) in
            simp (ws, es, f, off) filled.0;
        end = λ not_all.
            let off = false_of_not (λ on. not_all ((active_iff q r).0 on)) in
            simp (ws, es, f, off) filled.1;
      }
