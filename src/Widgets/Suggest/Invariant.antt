-- ===== src/Widgets/Suggest/Invariant.antt =====
-- What holds of the input with suggestions along every run: the numbers of the searches.
use revlm.Base.{
  ℕ, ◌≤◌, ◌<◌, ◌≡◌, refl, sym, subst, ◌∙◌, ◌⊎◌, inl, inr, Bool, true, false, Option, none, some,
  List, [], ◌∷◌, ◌++◌, ◌==◌, arith, Text, text_eq, text_eq_iff, is_empty, All, All-append,
  All-without, All-imp, any, Bool-cases,
}
use revlm.Widgets.Suggest.{
  Search, Fetched, resolved, rejected, rejected_other, SuggestInput, query_of, same_focus, effect,
  rendered, change, set_focused, fire, absorb, receive,
}
use revlm.Widgets.Suggest.Steps.{changes, focuses, refetches, fires, answers, Run, stay, go, Reach}

abbrev pub IsArmed : ℕ → Text → Option Search → Type 0
IsArmed n q none = Unit
IsArmed n q (some f) = (f.seq ≡ n) × (f.query ≡ q)

abbrev pub is_some_search : Option Search → Bool
is_some_search none = false
is_some_search (some f) = true

abbrev pub is_last : ℕ → Search → Bool
is_last n f = n == f.seq

pub record IsCurrent (n : ℕ) (q : Text) (focused loading : Bool) (timer : Option Search)
    (sent : List Search) : Type 0 where
  pub armed : IsArmed n q timer
  pub numbered : All (λ f. f.seq ≤ n) sent
  -- While the user searches, the last search is one by the text in the field.
  pub current : focused ≡ true → is_empty q ≡ false → All (λ f. (f.seq < n) ⊎ (f.query ≡ q)) sent
  -- While the user searches, a panel that says that it is loading waits for the last search.
  pub waits :
      focused ≡ true
      → is_empty q ≡ false
      → loading ≡ true
      → (is_some_search timer ≡ true) ⊎ (any (is_last n) sent ≡ true)

true-ne-false : true ≡ false → ⊥
true-ne-false h = cc

any-append_last :
    (n : ℕ) (sent : List Search) (f : Search) → f.seq ≡ n → any (is_last n) (sent ++ f ∷ []) ≡ true
any-append_last n [] f h = ground arith
any-append_last n (g ∷ sent) f h = ground (arith, any-append_last n sent f h)

-- An answer to another search than the last one leaves what is waited for.
any-without :
    (n : ℕ) (before after : List Search) (f : Search)
    → (n == f.seq) ≡ false
    → any (is_last n) (before ++ f ∷ after) ≡ true
    → any (is_last n) (before ++ after) ≡ true
any-without n [] after f other h = ground arith
any-without n (g ∷ before) after f other h = ground (arith, any-without n before after f other)

module _ {n : ℕ} {q : Text} {focused loading : Bool} {timer : Option Search}
    (before after : List Search) (f : Search) where
  answered-IsCurrent :
      IsCurrent n q focused loading timer (before ++ f ∷ after)
      → IsCurrent n q focused false timer (before ++ after)
  answered-IsCurrent h = record {
    armed = h.armed;
    numbered = All-without _ before after f h.numbered;
    current = λ on text. All-without _ before after f (h.current on text);
    waits = λ on text l. absurd (true-ne-false (sym l));
  }

  ignored-IsCurrent :
      (n == f.seq) ≡ false
      → IsCurrent n q focused loading timer (before ++ f ∷ after)
      → IsCurrent n q focused loading timer (before ++ after)
  ignored-IsCurrent other h = record {
    armed = h.armed;
    numbered = All-without _ before after f h.numbered;
    current = λ on text. All-without _ before after f (h.current on text);
    waits = λ on text l. elim (h.waits on text l) [
      | inl running ↦ inl running
      | inr sent ↦ inr (any-without n before after f other sent)
    ];
  }

same_focus-eq : (a b : Bool) → same_focus a b ≡ true → b ≡ a
same_focus-eq a b h = ground arith

module _ {T : Type 0} where
  abbrev pub IsGood : SuggestInput T → Type 0
  IsGood s = IsCurrent s.req_seq (query_of s) s.focused s.loading s.timer s.sent

  -- The effect needs the numbers alone.
  effect-IsGood : (s : SuggestInput T) → All (λ f. f.seq ≤ s.req_seq) s.sent → IsGood (effect s)
  unfolding effect
  effect-IsGood s h = elim (Bool-cases s.focused) [
    | inl on ↦ elim (Bool-cases (is_empty (query_of s))) [
      | inl blank ↦
          rw (on, blank)
            (record {
              armed = tt;
              numbered = h;
              current = λ _ k. absurd (true-ne-false (sym blank ∙ k));
              waits = λ _ k. absurd (true-ne-false (sym blank ∙ k));
            })
      | inr text ↦
          rw (on, text)
            (record {
              armed = (refl, refl);
              numbered = All-imp (λ f k. omega arith) s.sent h;
              current = λ _ _. All-imp (λ f k. inl (omega arith)) s.sent h;
              waits = λ _ _ _. inl refl;
            })
    ]
    | inr off ↦ rw off (record {
      armed = tt;
      numbered = h;
      current = λ k. absurd (true-ne-false (sym k));
      waits = λ k. absurd (true-ne-false (sym k));
    })
  ]

  moved-IsGood :
      (old new : SuggestInput T)
      → new.req_seq ≡ old.req_seq
      → query_of new ≡ query_of old
      → new.focused ≡ old.focused
      → new.loading ≡ old.loading
      → new.timer ≡ old.timer
      → new.sent ≡ old.sent
      → IsGood old
      → IsGood new
  moved-IsGood old new n q o l t e h = rw (n, q, o, l, t, e) h

  rendered-IsGood :
      (old new : SuggestInput T)
      → new.req_seq ≡ old.req_seq
      → new.loading ≡ old.loading
      → new.timer ≡ old.timer
      → new.sent ≡ old.sent
      → IsGood old
      → IsGood (rendered old new)
  unfolding rendered
  rendered-IsGood old new n l t e h = elim (Bool-cases (text_eq (query_of old) (query_of new))) [
    | inl same ↦ elim (Bool-cases (same_focus old.focused new.focused)) [
      | inl kept ↦
          rw (same, kept)
            (moved-IsGood old new n (sym ((text_eq_iff (query_of old) (query_of new)).0 same))
              (same_focus-eq old.focused new.focused kept) l t e h)
      | inr moved ↦ rw (same, moved) (effect-IsGood new (rw (n, e) h.numbered))
    ]
    | inr other ↦ rw other (effect-IsGood new (rw (n, e) h.numbered))
  ]

  change-IsGood : (value : Text) (s : SuggestInput T) → IsGood s → IsGood (change value s)
  unfolding change
  change-IsGood value s h = rendered-IsGood s _ refl refl refl refl h

  set_focused-IsGood :
      (focused : Bool) (s : SuggestInput T) → IsGood s → IsGood (set_focused focused s)
  unfolding set_focused
  set_focused-IsGood focused s h = rendered-IsGood s _ refl refl refl refl h

  -- A timer that runs is one of the last search.
  pub armed-IsGood :
      (f : Search) (s : SuggestInput T)
      → s.timer ≡ some f
      → IsGood s
      → (f.seq ≡ s.req_seq) × (f.query ≡ query_of s)
  armed-IsGood f s t h = subst (IsArmed s.req_seq (query_of s)) t h.armed

  fire-IsGood : (f : Search) (s : SuggestInput T) → s.timer ≡ some f → IsGood s → IsGood (fire f s)
  unfolding fire
  fire-IsGood f s t h =
      let a = armed-IsGood f s t h in
      record {
        armed = tt;
        numbered = All-append _ s.sent _ h.numbered (omega (arith, a.0), tt);
        current = λ on text. All-append _ s.sent _ (h.current on text) (inr a.1, tt);
        waits = λ on text _. inr (any-append_last s.req_seq s.sent f a.0);
      }

  receive-IsGood :
      (f : Search) (answer : Fetched T) (before after : List Search) (s : SuggestInput T)
      → s.sent ≡ before ++ f ∷ after
      → IsGood s
      → IsGood (receive f answer (record s { sent = before ++ after }))
  unfolding receive
  receive-IsGood f answer before after s e h =
      let k : IsCurrent s.req_seq (query_of s) s.focused s.loading s.timer (before ++ f ∷ after) =
        subst (IsCurrent s.req_seq (query_of s) s.focused s.loading s.timer) e h in
      elim (Bool-cases (s.req_seq == f.seq)) [
        | inl last ↦ rw last (absorb-IsGood answer _ (answered-IsCurrent before after f k))
        | inr other ↦ rw other (ignored-IsCurrent before after f other k)
      ]
    where
      absorb-IsGood :
          (answer : Fetched T) (s : SuggestInput T)
          → IsCurrent s.req_seq (query_of s) s.focused false s.timer s.sent
          → IsGood (absorb answer s)
      absorb-IsGood (resolved found) s h = h
      absorb-IsGood (rejected message) s h = h
      absorb-IsGood rejected_other s h = h

  -- Whatever the user, the page, the timers and the server do, and in whatever order.
  pub Run-IsGood : {s t : SuggestInput T} → Run s t → IsGood s → IsGood t
  Run-IsGood stay h = h
  Run-IsGood (go r (changes s value)) h = change-IsGood value s (Run-IsGood r h)
  Run-IsGood (go r (focuses s focused)) h = set_focused-IsGood focused s (Run-IsGood r h)
  Run-IsGood (go r (refetches s)) h = effect-IsGood s (Run-IsGood r h).numbered
  Run-IsGood (go r (fires s f t)) h = fire-IsGood f s t (Run-IsGood r h)
  Run-IsGood (go r (answers s before after f answer e)) h =
      receive-IsGood f answer before after s e (Run-IsGood r h)

  pub Reach-IsGood : {s : SuggestInput T} → Reach T s → IsGood s
  Reach-IsGood (value, r) = Run-IsGood r (record {
    armed = tt;
    numbered = tt;
    current = λ on. absurd (true-ne-false (sym on));
    waits = λ on. absurd (true-ne-false (sym on));
  })
