-- ===== src/Widgets/Suggest/Live.antt =====
-- Which answers count in the input with suggestions, and that a search that is under way ends.
use revlm.Base.{
  ◌+◌, ◌<◌, ◌≡◌, refl, sym, ap, ◌∙◌, trim, ◌⊎◌, inl, inr, true, false, Option, none, some, List, [],
  ◌∷◌, ◌++◌, ◌==◌, ==_iff, arith, codes, is_empty, All-mid, any-split, Bool-cases, Option-cases,
  or_else,
}
use revlm.Widgets.Suggest.{
  Search, Fetched, resolved, rejected, rejected_other, SuggestInput, query_of, fire, absorb,
  receive,
}
use revlm.Widgets.Suggest.Steps.{Reach}
use revlm.Widgets.Suggest.Waits.{
  Waits, starts, runs_off, comes, Waits-Run, steps, pending, Waits-field, not_armed, nothing_sent,
  steps-pending,
}
use revlm.Widgets.Suggest.Invariant.{is_last, is_some_search, IsGood, armed-IsGood, Reach-IsGood}

not_running : (o : Option Search) → o ≡ none → is_some_search o ≡ true → ⊥
not_running o off h = ground arith

module _ {T : Type 0} where
  -- While the user searches, an answer to anything but the text in the field changes nothing.
  pub receive-current :
      (s : SuggestInput T) (before after : List Search) (f : Search) (answer : Fetched T)
      → Reach T s
      → s.focused ≡ true
      → is_empty (query_of s) ≡ false
      → s.sent ≡ before ++ f ∷ after
      → let rest = record s { sent = before ++ after } in
        (receive f answer rest ≡ rest) ⊎ (f.query ≡ query_of s)
  unfolding receive
  receive-current s before after f answer r on text e = elim (Bool-cases (s.req_seq == f.seq)) [
    | inl last ↦
        let recent : (f.seq < s.req_seq) ⊎ (f.query ≡ query_of s) =
          All-mid _ before after f (rw e at ((Reach-IsGood r).current on text)) in
        elim recent [ inl older ↦ absurd (ground arith) | inr same ↦ inr same ]
    | inr other ↦ inl (rw other)
  ]

  -- What the panel holds once the answer is there.
  abbrev pub Shows : Fetched T → SuggestInput T → Type 0
  Shows (resolved found) t = t.items ≡ or_else found []
  Shows (rejected message) t = (t.items ≡ []) × (t.err ≡ message)
  Shows rejected_other t = (t.items ≡ []) × (t.err ≡ codes "加载失败")

  -- The panel once a wait, in which the user and the page do nothing, has brought the answer.
  pub record Settles (s : SuggestInput T) (answer : Fetched T) (t : SuggestInput T) : Type 0 where
    pub wait : Waits s t
    pub still : (t.focused ≡ s.focused) × (t.value ≡ s.value)
    pub ended : t.loading ≡ false
    pub shows : Shows answer t

  absorbed :
      (s u : SuggestInput T) (answer : Fetched T)
      → Waits s (absorb answer u)
      → Settles s answer (absorb answer u)
  absorbed s u (resolved found) w = record {
    wait = w;
    still = Waits-field w;
    ended = refl;
    shows = refl;
  }
  absorbed s u (rejected message) w = record {
    wait = w;
    still = Waits-field w;
    ended = refl;
    shows = (refl, refl);
  }
  absorbed s u rejected_other w = record {
    wait = w;
    still = Waits-field w;
    ended = refl;
    shows = (refl, refl);
  }

  -- An answer to the last search ends the loading.
  answered :
      (s u : SuggestInput T) (before after : List Search) (f : Search) (answer : Fetched T)
      → Waits s u
      → u.sent ≡ before ++ f ∷ after
      → (u.req_seq == f.seq) ≡ true
      → Settles s answer (receive f answer (record u { sent = before ++ after }))
  unfolding receive
  answered s u before after f answer w e n =
      rw n (absorbed s _ answer (rw n at (comes w before after f answer e)))

  settles_of_timer :
      (s : SuggestInput T) (f : Search) (answer : Fetched T)
      → IsGood s
      → s.timer ≡ some f
      → (t : SuggestInput T) × Settles s answer t
  unfolding fire
  settles_of_timer s f answer h t = (
    _,
    answered s (fire f s) s.sent [] f answer (runs_off starts f t) refl
        ((==_iff s.req_seq f.seq).1 (sym (armed-IsGood f s t h).0)),
  )

  can_settle :
      (s : SuggestInput T) (answer : Fetched T)
      → Reach T s
      → s.focused ≡ true
      → is_empty (query_of s) ≡ false
      → s.loading ≡ true
      → (t : SuggestInput T) × Settles s answer t
  can_settle s answer r on text l = elim ((Reach-IsGood r).waits on text l) [
    | inl running ↦ elim (Option-cases s.timer) [
      | inl off ↦ absurd (not_running s.timer off running)
      | inr (f, t) ↦ settles_of_timer s f answer (Reach-IsGood r) t
    ]
    | inr sent ↦
        let (before, after, f, e, last) = any-split (is_last s.req_seq) s.sent sent in
        (_, answered s s before after f answer starts e last)
  ]

  -- A wait at whose end nothing is to come has ended the loading.
  ended_of_wait :
      (s t : SuggestInput T)
      → Reach T s
      → s.focused ≡ true
      → is_empty (query_of s) ≡ false
      → Waits s t
      → pending t ≡ 0
      → t.loading ≡ false
  ended_of_wait s t r on text w none_left = elim (Bool-cases t.loading) [
    | inl l ↦
        let field = Waits-field w in
        let good = Reach-IsGood (r.0, Waits-Run r.1 w) in
        let text_there : is_empty (query_of t) ≡ false =
          ap (λ v. is_empty (trim v)) field.1 ∙ text in
        elim (good.waits (field.0 ∙ on) text_there l) [
          | inl running ↦ absurd (not_armed t.timer _ none_left running)
          | inr sent ↦ absurd (nothing_sent t.req_seq _ t.sent none_left sent)
        ]
    | inr off ↦ off
  ]

  -- While the user searches and the panel is loading, and then neither the user nor the page does
  -- anything: whatever the server answers to the last search, timers and answers alone can end the
  -- loading, with that answer shown. And whatever timers and answers come, each is one less of those
  -- that are still to come, and once none is, the loading has ended.
  pub Reach-Settles :
      (s : SuggestInput T) (answer : Fetched T)
      → Reach T s
      → s.focused ≡ true
      → is_empty (query_of s) ≡ false
      → s.loading ≡ true
      → ((t : SuggestInput T) × Settles s answer t)
        × ((t : SuggestInput T) (w : Waits s t)
            → (steps w + pending t ≡ pending s) × (pending t ≡ 0 → t.loading ≡ false))
  Reach-Settles s answer r on text l =
      (can_settle s answer r on text l, λ t w. (steps-pending w, ended_of_wait s t r on text w))
