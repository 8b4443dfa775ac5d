-- ===== src/Tokens/Page/Laws.antt =====
-- Which secrets the handlers show, hide and copy.
use revlm.Base.{
  ℕ, ◌≡◌, refl, ap, ◌∙◌, ◌≢◌, ◌&&◌, ◌⊎◌, inl, inr, Bool, any, true, false, Option, none, some, List,
  [], ◌∷◌, arith, ◌==◌, if◌then◌else◌, ==_refl, Bool-cases, or_else, Text, codes, is_empty, trim,
}
use revlm.Api.{
  Reply, answered, error, thrown, Outcome, loaded, failed, settle, non_empty, ApiResponse,
}
use revlm.Api.Tokens.{UserToken}
use revlm.Tokens.Page.{Page, entry, shown, refresh, is_active}
use revlm.Tokens.Page.Handlers.{
  Revealed, token, raised, raised_other, take_token, take_answer, reveal_shown, reveal_token,
  on_copy, copy_revealed, on_rotate, open_generated_token_modal, copy_token, rotated, forget,
  open_if_some, clear_err,
}
use revlm.Tokens.Page.Secrets.{kept_by, shown-refresh, shown-remove}

open-shown : (t : Text) (p : Page) (id : ℕ) → shown (open_if_some t p) id ≡ shown p id
unfolding shown open_generated_token_modal
open-shown [] p id = refl
open-shown (c ∷ t) p id = refl

-- A list has the token, and as an active one.
abbrev pub lists_active : List UserToken → ℕ → Bool
lists_active ts id = any (λ (t : UserToken). (t.id == id) && (t.status == 1)) ts

is_active_lem : (ts : List UserToken) (id : ℕ) → is_active ts id ≡ lists_active ts id
unfolding is_active
is_active_lem [] id = refl
is_active_lem (t ∷ ts) id = ground (arith, is_active_lem ts id)

-- What is left of another token's secret: it goes if the new secret was made and the list that is
-- loaded then does not have its token as an active one.
abbrev pub left_over : Outcome Text → Outcome (List UserToken) → ℕ → Option Text → Option Text
left_over (failed message) list other secret = secret
left_over (loaded d) (failed message) other secret = secret
left_over (loaded d) (loaded ts) other secret =
    if lists_active (or_else ts []) other then secret else none

left_over-none :
    (o : Outcome Text) (l : Outcome (List UserToken)) (other : ℕ) → left_over o l other none ≡ none
left_over-none (failed message) l other = refl
left_over-none (loaded d) (failed message) other = refl
left_over-none (loaded d) (loaded ts) other = ground arith

left_of_if :
    (b : Bool) (o : Outcome Text) (l : Outcome (List UserToken)) (other : ℕ) (secret : Option Text)
    → left_over o l other (if b then none else secret)
      ≡ (if b then none else left_over o l other secret)
left_of_if true o l other secret = left_over-none o l other
left_of_if false o l other secret = refl

kept_by-none :
    (o : Outcome (List UserToken)) (p : Page) (id : ℕ) → shown p id ≡ none → kept_by o p id ≡ none
kept_by-none (loaded d) p id h = ground arith
kept_by-none (failed message) p id h = h

kept_by-left_over :
    (d : Option Text) (o : Outcome (List UserToken)) (p : Page) (id : ℕ)
    → kept_by o p id ≡ left_over (loaded d) o id (shown p id)
kept_by-left_over d (loaded ts) p id = rw (is_active_lem (or_else ts []) id) refl
kept_by-left_over d (failed message) p id = refl

rotated-shown :
    (o : Outcome Text) (list : Reply (List UserToken)) (p : Page) (id : ℕ)
    → (shown p id ≡ none → shown (rotated o list p) id ≡ none)
      × (shown (rotated o list p) id ≡ left_over o (settle (codes "加载失败") list) id (shown p id))
rotated-shown (loaded d) list p id =
    let reload = open-shown (or_else d []) (refresh list p) id ∙ shown-refresh list p id in
    rw reload (
      kept_by-none (settle (codes "加载失败") list) p id,
      kept_by-left_over d (settle (codes "加载失败") list) p id,
    )
rotated-shown (failed message) list p id = unfold shown in (λ h. h, refl)

-- A token whose secret is made anew is not shown with its old secret, whether the server does it or
-- not and whatever the reload brings. Another token is shown as before, but with no secret if the
-- server makes the new one and the reload succeeds with a list that does not have that other token as
-- an active one.
pub on_rotate-shown :
    (id other : ℕ) (reply : Reply Text) (list : Reply (List UserToken)) (p : Page)
    → (shown (on_rotate id reply list p) id ≡ none)
      × (shown (on_rotate id reply list p) other ≡ (
          if id == other
          then none
          else left_over
              (settle (codes "重新生成失败") reply)
              (settle (codes "加载失败") list)
              other
              (shown p other)))
unfolding on_rotate
on_rotate-shown id other reply list p =
    let cleared = record p { tokens_err = [] } in
    let same : shown cleared other ≡ shown p other = unfold shown in refl in
    let o = settle (codes "重新生成失败") reply in
    (
      (rotated-shown o list (forget id p) id).0 (shown-remove id id cleared ∙ rw (==_refl id) refl),
      (rotated-shown o list (forget id p) other).1
          ∙ ap (left_over o (settle (codes "加载失败") list) other)
              (shown-remove id other cleared ∙ rw same refl)
          ∙ left_of_if (id == other) o (settle (codes "加载失败") list) other (shown p other),
    )

-- The server answered with the token `t`.
pub record Answers (reply : Reply Text) (t : Text) : Type 0 where
  pub response : ApiResponse Text
  pub is_answer : reply ≡ answered response
  pub success : response.success ≡ true
  pub body : response.body ≡ some t

copy-shown :
    (ok : Bool) (id : ℕ) (r : Page × Revealed) → shown (copy_revealed ok id r) id ≡ shown r.0 id
unfolding shown copy_token
copy-shown true id (p, token t) = refl
copy-shown false id (p, token t) = refl
copy-shown ok id (p, raised message) = refl
copy-shown ok id (p, raised_other) = refl

body_of_text : (o : Option Text) (t : Text) → or_else o [] ≡ t → trim t ≢ [] → o ≡ some t
unfolding trim
body_of_text none t e h = absurd (h (rw⁻¹ e refl))
body_of_text (some u) t e h = ap some e

not_blank : (t : Text) → is_empty (trim t) ≡ false → (trim t ≢ []) × (non_empty t ≡ some t)
unfolding trim
not_blank [] h = cc
not_blank (c ∷ t) h = (λ e. let e' = rw e at h in cc, refl)

take_token-token :
    (id : ℕ) (u : Text) (p : Page) (t : Text)
    → (take_token id u p).1 ≡ token t
    → (u ≡ t) × (trim t ≢ []) × (shown (take_token id u p).0 id ≡ some t)
unfolding shown entry
take_token-token id u p t h = elim (Bool-cases (is_empty (trim u))) [
  | inl blank ↦ absurd (let e = rw blank at h in cc)
  | inr kept ↦
      let same : u ≡ t = (let e = rw kept at h in cc) in
      let facts = not_blank u kept in
      (same, rw⁻¹ same facts.0, rw (kept, ==_refl id) (facts.1 ∙ ap some same))
]

take_answer-token :
    (id : ℕ) (reply : Reply Text) (p : Page) (t : Text)
    → (take_answer id reply p).1 ≡ token t
    → Answers reply t × (trim t ≢ []) × (shown (take_answer id reply p).0 id ≡ some t)
take_answer-token id (error m) p t h = cc
take_answer-token id thrown p t h = cc
take_answer-token id (answered r) p t h = elim (Bool-cases r.success) [
  | inl success ↦
      let (same, text, now) = take_token-token id (or_else r.body []) p t (rw success at h) in
      (
        record {
          response = r;
          is_answer = refl;
          success = success;
          body = body_of_text r.body t same text;
        },
        text,
        simp success now,
      )
  | inr refused ↦ absurd (let e = rw refused at h in cc)
]

reveal_shown-token :
    (o : Option Text) (id : ℕ) (reply : Reply Text) (p : Page) (t : Text)
    → shown p id ≡ o
    → (reveal_shown o id reply p).1 ≡ token t
    → (shown (reveal_shown o id reply p).0 id ≡ some t)
      × ((o ≡ some t) ⊎ ((o ≡ none) × (trim t ≢ []) × Answers reply t))
reveal_shown-token (some s) id reply p t e h =
    let same : s ≡ t = cc in (e ∙ ap some same, inl (ap some same))
reveal_shown-token none id reply p t e h =
    let (a, text, now) = take_answer-token id reply p t h in
    (unfold shown in now, inr (refl, text, a))

-- The text that a token's button copies is the secret that the page shows then: the one that it
-- showed before, or, if it showed none, the one that the server answered with, which is not blank.
pub on_copy-token :
    (ok : Bool) (id : ℕ) (reply : Reply Text) (p : Page) (t : Text)
    → (on_copy ok id reply p).1 ≡ token t
    → (shown (on_copy ok id reply p).0 id ≡ some t)
      × ((shown p id ≡ some t) ⊎ ((shown p id ≡ none) × (trim t ≢ []) × Answers reply t))
unfolding on_copy reveal_token
on_copy-token ok id reply p t h =
    let cleared = clear_err p in
    let same : shown cleared id ≡ shown p id = unfold shown in refl in
    let r = reveal_shown-token (shown cleared id) id reply cleared t refl h in
    (copy-shown ok id (reveal_token id reply cleared) ∙ r.0, rw⁻¹ same r.1)
