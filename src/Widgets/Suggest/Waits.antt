-- ===== src/Widgets/Suggest/Waits.antt =====
-- The input with suggestions while the user and the page do nothing: timers run off and answers come.
use revlm.Base.{
  ℕ, ◌+◌, ◌≡◌, refl, inl, inr, Option, none, some, List, [], ◌∷◌, ◌++◌, ◌==◌, arith, length,
  Bool-cases, true, any,
}
use revlm.Widgets.Suggest.{
  Search, Fetched, resolved, rejected, rejected_other, SuggestInput, fire, absorb, receive,
}
use revlm.Widgets.Suggest.Invariant.{is_last, is_some_search}
use revlm.Widgets.Suggest.Steps.{fires, answers, Run, go}

abbrev pub armed_count : Option Search → ℕ
armed_count none = 0
armed_count (some f) = 2

-- Where nothing is to come, no timer runs and no search is sent.
pub not_armed : (o : Option Search) (n : ℕ) → armed_count o + n ≡ 0 → is_some_search o ≡ true → ⊥
not_armed none n h on = cc
not_armed (some f) n h on = absurd (omega arith)

pub nothing_sent :
    (m k : ℕ) (sent : List Search) → k + length sent ≡ 0 → any (is_last m) sent ≡ true → ⊥
nothing_sent m k [] h on = cc
nothing_sent m k (f ∷ sent) h on = absurd (omega arith)

length-mid :
    (before after : List Search) (f : Search)
    → length (before ++ f ∷ after) ≡ length (before ++ after) + 1
length-mid [] after f = omega arith
length-mid (g ∷ before) after f = omega (arith, length-mid before after f)

length-last : (sent : List Search) (f : Search) → length (sent ++ f ∷ []) ≡ length sent + 1
length-last [] f = omega arith
length-last (g ∷ sent) f = omega (arith, length-last sent f)

module _ {T : Type 0} where
  pub data Waits (s : SuggestInput T) : SuggestInput T → Type 0 where
    starts : Waits s s
    runs_off :
        {t : SuggestInput T} → Waits s t → (f : Search) → t.timer ≡ some f → Waits s (fire f t)
    comes :
        {t : SuggestInput T}
        → Waits s t
        → (before after : List Search) (f : Search) (answer : Fetched T)
        → t.sent ≡ before ++ f ∷ after
        → Waits s (receive f answer (record t { sent = before ++ after }))

  pub Waits-Run : {r s t : SuggestInput T} → Run r s → Waits s t → Run r t
  Waits-Run r starts = r
  Waits-Run r (runs_off w f t) = go (Waits-Run r w) (fires _ f t)
  Waits-Run r (comes w before after f answer e) =
      go (Waits-Run r w) (answers _ before after f answer e)

  -- The timers and answers of a wait.
  pub steps : {s t : SuggestInput T} → Waits s t → ℕ
  steps starts = 0
  steps (runs_off w f t) = steps w + 1
  steps (comes w before after f answer e) = steps w + 1

  -- What is still to come: a timer and then its answer, and an answer for each search that is sent.
  abbrev pub pending : SuggestInput T → ℕ
  pending s = armed_count s.timer + length s.sent

  -- What an answer leaves alone.
  abbrev Same : SuggestInput T → SuggestInput T → Type 0
  Same s t = (t.focused ≡ s.focused) × (t.value ≡ s.value) × (t.timer ≡ s.timer) × (t.sent ≡ s.sent)

  absorb-Same : (answer : Fetched T) (s : SuggestInput T) → Same s (absorb answer s)
  absorb-Same (resolved found) s = (refl, refl, refl, refl)
  absorb-Same (rejected message) s = (refl, refl, refl, refl)
  absorb-Same rejected_other s = (refl, refl, refl, refl)

  receive-Same :
      (f : Search) (answer : Fetched T) (s : SuggestInput T) → Same s (receive f answer s)
  unfolding receive
  receive-Same f answer s = elim (Bool-cases (s.req_seq == f.seq)) [
    | inl last ↦ rw last (absorb-Same answer s)
    | inr other ↦ rw other (refl, refl, refl, refl)
  ]

  -- A wait leaves the field as it is.
  pub Waits-field :
      {s t : SuggestInput T} → Waits s t → (t.focused ≡ s.focused) × (t.value ≡ s.value)
  unfolding fire
  Waits-field starts = (refl, refl)
  Waits-field (runs_off w f t) = Waits-field w
  Waits-field (comes {t} w before after f answer e) =
      let same = receive-Same f answer (record t { sent = before ++ after }) in
      rw (same.0, same.1) (Waits-field w)

  fire-pending :
      (f : Search) (t : SuggestInput T) → t.timer ≡ some f → pending (fire f t) + 1 ≡ pending t
  unfolding fire
  fire-pending f t e = rw (e, length-last t.sent f) (omega arith)

  receive-pending :
      (before after : List Search) (f : Search) (answer : Fetched T) (t : SuggestInput T)
      → t.sent ≡ before ++ f ∷ after
      → pending (receive f answer (record t { sent = before ++ after })) + 1 ≡ pending t
  receive-pending before after f answer t e =
      let same = receive-Same f answer (record t { sent = before ++ after }) in
      rw (same.2, same.3, e, length-mid before after f) (omega arith)

  -- Each step of a wait takes away one of what is still to come.
  pub steps-pending : {s t : SuggestInput T} (w : Waits s t) → steps w + pending t ≡ pending s
  unfolding steps
  steps-pending starts = omega arith
  steps-pending (runs_off {t} w f e) =
      let before = steps-pending w in let less = fire-pending f t e in omega (arith, before, less)
  steps-pending (comes {t} w before after f answer e) =
      let earlier = steps-pending w in
      let less = receive-pending before after f answer t e in omega (arith, earlier, less)
