-- ===== src/Tokens/Usage/Laws.antt =====
-- Whose usage the dialog shows.
use revlm.Base.{
  ℕ, ◌≡◌, refl, sym, ◌∙◌, subst, Option, none, some, List, [], ◌∷◌, ◌++◌, Text, All, All-append,
  All-mid, All-without,
}
use revlm.Api.{Reply, Outcome, loaded, failed, settle}
use revlm.Api.Tokens.{UserToken}
use revlm.Usage.Labels.{Moment}
use revlm.Usage.UserPage.{Window}
use revlm.Tokens.Usage.{
  Asked, Override, no_override, empty_range, Dialog, load_failed, initial, refresh_usage,
  open_token_usage_modal, on_hidden, on_start, on_end, on_query, on_reset, found_in, refresh_shown,
  absorb, receive, Act, starts, ends, queries, resets, Reach, mount, opens, closes, hears,
}

abbrev IsOn : ℕ → Asked → Type 0
IsOn id q = q.token_id ≡ id

module _ {W : Type 0} (read : Text → Option Moment) where
  -- What can follow `s` before the dialog is closed, with the answers that come, the last one in front.
  pub data Run (s : Dialog W) : List (Asked × Reply (List (Window W))) → Dialog W → Type 0 where
    stay : Run s [] s
    act :
        {hs : List (Asked × Reply (List (Window W)))} {t u : Dialog W}
        → Run s hs t
        → Act t u
        → Run s hs u
    hear :
        {hs : List (Asked × Reply (List (Window W)))} {t : Dialog W} (before after : List Asked)
        (q : Asked) (reply : Reply (List (Window W)))
        → Run s hs t
        → t.sent ≡ before ++ q ∷ after
        → Run s ((q, reply) ∷ hs) (receive read q reply (record t { sent = before ++ after }))

  abbrev pub last_found : List (Asked × Reply (List (Window W))) → Option (Window W)
  last_found [] = none
  last_found (a ∷ hs) = found_in (settle load_failed a.1)

  found-absorb :
      (q : Asked) (o : Outcome (List (Window W))) (s : Dialog W)
      → (absorb read q o s).found ≡ found_in o
  found-absorb q (loaded none) s = refl
  found-absorb q (loaded (some [])) s = refl
  found-absorb q (loaded (some (w ∷ ws))) s = refl
  found-absorb q (failed message) s = refl

  token-absorb :
      (q : Asked) (o : Outcome (List (Window W))) (s : Dialog W)
      → (absorb read q o s).token ≡ s.token
  token-absorb q (loaded none) s = refl
  token-absorb q (loaded (some [])) s = refl
  token-absorb q (loaded (some (w ∷ ws))) s = refl
  token-absorb q (failed message) s = refl

  sent-absorb :
      (q : Asked) (o : Outcome (List (Window W))) (s : Dialog W) → (absorb read q o s).sent ≡ s.sent
  sent-absorb q (loaded none) s = refl
  sent-absorb q (loaded (some [])) s = refl
  sent-absorb q (loaded (some (w ∷ ws))) s = refl
  sent-absorb q (failed message) s = refl

  pub record IsOwn (t : UserToken) (hs : List (Asked × Reply (List (Window W)))) (s : Dialog W)
      : Type 0 where
    pub token : s.token ≡ some t
    pub asked : All (IsOn t.id) s.sent
    pub heard : All (λ a. IsOn t.id a.0) hs
    pub found : s.found ≡ last_found hs

  refresh_usage-IsOwn :
      (t : UserToken) (hs : List (Asked × Reply (List (Window W)))) (override : Override)
      (s : Dialog W)
      → IsOwn t hs s
      → IsOwn t hs (refresh_usage t.id override s)
  unfolding refresh_usage
  refresh_usage-IsOwn t hs override s h = record {
    token = h.token;
    asked = All-append (IsOn t.id) s.sent _ h.asked (refl, tt);
    heard = h.heard;
    found = h.found;
  }

  refresh_shown-IsOwn :
      (t : UserToken) (hs : List (Asked × Reply (List (Window W)))) (override : Override)
      (s : Dialog W)
      → IsOwn t hs s
      → IsOwn t hs (refresh_shown s.token override s)
  refresh_shown-IsOwn t hs override s h =
      subst (λ o. IsOwn t hs (refresh_shown o override s)) (sym h.token)
        (refresh_usage-IsOwn t hs override s h)

  Act-IsOwn :
      (t : UserToken) (hs : List (Asked × Reply (List (Window W)))) {s u : Dialog W}
      → Act s u
      → IsOwn t hs s
      → IsOwn t hs u
  unfolding on_start on_end on_query on_reset
  Act-IsOwn t hs (starts s start) h = record {
    token = h.token;
    asked = h.asked;
    heard = h.heard;
    found = h.found;
  }
  Act-IsOwn t hs (ends s end) h = record {
    token = h.token;
    asked = h.asked;
    heard = h.heard;
    found = h.found;
  }
  Act-IsOwn t hs (queries s) h = refresh_shown-IsOwn t hs no_override s h
  Act-IsOwn t hs (resets s) h =
      refresh_shown-IsOwn t hs empty_range (record s { start = []; end = [] })
        (record { token = h.token; asked = h.asked; heard = h.heard; found = h.found })

  receive-IsOwn :
      (t : UserToken) (hs : List (Asked × Reply (List (Window W)))) (before after : List Asked)
      (q : Asked) (reply : Reply (List (Window W))) (s : Dialog W)
      → s.sent ≡ before ++ q ∷ after
      → IsOwn t hs s
      → IsOwn t ((q, reply) ∷ hs) (receive read q reply (record s { sent = before ++ after }))
  unfolding receive
  receive-IsOwn t hs before after q reply s e h =
      let o = settle load_failed reply in
      let rest = record s { sent = before ++ after } in
      let asked : All (IsOn t.id) (before ++ q ∷ after) = subst (All (IsOn t.id)) e h.asked in
      record {
        token = token-absorb q o rest ∙ h.token;
        asked =
            subst (All (IsOn t.id)) (sym (sent-absorb q o rest))
              (All-without (IsOn t.id) before after q asked);
        heard = (All-mid (IsOn t.id) before after q asked, h.heard);
        found = found-absorb q o rest;
      }

  Run-IsOwn :
      (t : UserToken) {s : Dialog W} {hs : List (Asked × Reply (List (Window W)))} {u : Dialog W}
      → IsOwn t [] s
      → Run s hs u
      → IsOwn t hs u
  Run-IsOwn t h stay = h
  Run-IsOwn t h (act r a) = Act-IsOwn t _ a (Run-IsOwn t h r)
  Run-IsOwn t h (hear before after q reply r e) =
      receive-IsOwn t _ before after q reply _ e (Run-IsOwn t h r)

  opened-IsOwn :
      (t : UserToken) (s : Dialog W) → s.sent ≡ [] → IsOwn t [] (open_token_usage_modal t s)
  unfolding open_token_usage_modal
  opened-IsOwn t s e =
      refresh_usage-IsOwn t [] empty_range
        (record s { token = some t; found = none; start = []; end = []; err = [] })
        (record {
          token = refl;
          asked = subst (All (IsOn t.id)) (sym e) tt;
          heard = tt;
          found = refl;
        })

  -- Where no query waits when the dialog of a token opens: until it is closed, it is the dialog of this
  -- token, every query that waits or was answered is one on it, and the window shown is that of the last
  -- answer, or none before the first.
  pub open_token_usage_modal-IsOwn :
      (t : UserToken) (s u : Dialog W) (hs : List (Asked × Reply (List (Window W))))
      → s.sent ≡ []
      → Run (open_token_usage_modal t s) hs u
      → IsOwn t hs u
  open_token_usage_modal-IsOwn t s u hs e r = Run-IsOwn t (opened-IsOwn t s e) r

  -- The second of two dialogs, while both queries wait.
  reopened-Reach :
      (a b : UserToken)
      → (s : Dialog W) × Reach read s
        × (s.token ≡ some b)
        × ((q : Asked) × (r : Asked) × (s.sent ≡ q ∷ r ∷ []) × (q.token_id ≡ a.id))
  unfolding open_token_usage_modal refresh_usage on_hidden
  reopened-Reach a b = (
    open_token_usage_modal b (on_hidden (open_token_usage_modal a initial)),
    opens b refl (closes (opens a refl mount)),
    refl,
    (_, _, refl, refl),
  )

  -- For any two tokens: the dialog of the second one can be open, with its own query answered, while a
  -- query on the first one still waits; whatever the answer to that is, the dialog of the second one
  -- shows its window.
  pub Reach-crossed :
      (a b : UserToken) (own late : Reply (List (Window W)))
      → (s : Dialog W) × (q : Asked) × Reach read s
        × (s.token ≡ some b)
        × (s.sent ≡ q ∷ [])
        × (q.token_id ≡ a.id)
        × ((receive read q late (record s { sent = [] })).token ≡ some b)
        × ((receive read q late (record s { sent = [] })).found
            ≡ found_in (settle load_failed late))
  unfolding receive
  Reach-crossed a b own late =
      let (s, reach, open_b, (q, r, e, on_a)) = reopened-Reach a b in
      let o = settle load_failed own in
      let rest = record s { sent = q ∷ [] } in
      let t = absorb read r o rest in
      let open_t : t.token ≡ some b = token-absorb r o rest ∙ open_b in
      (
        t,
        q,
        hears (q ∷ []) [] r own reach e,
        open_t,
        sent-absorb r o rest,
        on_a,
        token-absorb q (settle load_failed late) (record t { sent = [] }) ∙ open_t,
        found-absorb q (settle load_failed late) (record t { sent = [] }),
      )
