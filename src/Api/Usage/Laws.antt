-- ===== src/Api/Usage/Laws.antt =====
-- What the requests on usage send.
use revlm.Base.{
  String, ℕ, zero, suc, ◌≢◌, ◌<◌, Bool, true, false, Option, none, some, List, [], ◌∷◌, ◌++◌, ◌≡◌,
  refl, arith, Text, All, All-append, trim,
}
use mathlib.Core.Option
use revlm.Api.Http.{Field, chars, number, integer, decimal, flag, null, given}
use revlm.Api.Channels.{Granularity, hour, day, granularity_text}
use revlm.Api.Usage.{
  text_or_none, id_or_none, true_or_none, browser_time_zone, get_usage_windows,
  get_usage_time_series, get_usage_event_detail, get_dashboard,
}

-- Neither an empty text, nor 0, nor `false`.
abbrev pub IsFull : Field → Type 0
IsFull (chars t) = t ≢ []
IsFull (number n) = 0 < n
IsFull (flag b) = b ≡ true
IsFull (integer z) = Unit
IsFull (decimal t) = Unit
IsFull null = ⊥

abbrev AreFull : List (Text × Field) → Type 0
AreFull = All (λ p. IsFull p.1)

given-text :
    (name : String) (o : Option Text) → AreFull (given name (Option.map chars (text_or_none o)))
given-text name none = tt
given-text name (some []) = tt
given-text name (some (c ∷ t)) = (cc, tt)

given-id : (name : String) (o : Option ℕ) → AreFull (given name (Option.map number (id_or_none o)))
given-id name none = tt
given-id name (some zero) = tt
given-id name (some (suc n)) = (omega arith, tt)

given-flag :
    (name : String) (o : Option Bool) → AreFull (given name (Option.map flag (true_or_none o)))
given-flag name none = tt
given-flag name (some true) = (refl, tt)
given-flag name (some false) = tt

given-granularity :
    (name : String) (o : Option Granularity)
    → AreFull (given name (Option.map (λ g. chars (granularity_text g)) o))
given-granularity name none = tt
given-granularity name (some hour) = (cc, tt)
given-granularity name (some day) = (cc, tt)

given-zone :
    (name : String) (resolved : Option Text)
    → AreFull (given name (Option.map chars (browser_time_zone resolved)))
unfolding browser_time_zone
given-zone name none = tt
given-zone name (some tz) = given-text name (some (trim tz))

joined : (xs ys : List (Text × Field)) → AreFull xs → AreFull ys → AreFull (xs ++ ys)
joined xs ys h k = All-append _ xs ys h k

-- Whatever the pages ask for and whatever the browser knows of its zone: no request on the own usage
-- sends an empty text, a 0 or a false flag.
pub get_usage_windows-AreFull :
    (start end : Option Text) (granularity : Option Granularity) (token_id : Option ℕ)
    (all_time : Option Bool) (event_id : ℕ) (resolved : Option Text)
    → let tz = browser_time_zone resolved in
      AreFull (get_usage_windows start end token_id all_time tz).params
      × AreFull (get_usage_time_series start end granularity token_id all_time tz).params
      × AreFull (get_usage_event_detail event_id token_id).params
      × AreFull (get_dashboard tz).params
unfolding get_usage_windows get_usage_time_series get_usage_event_detail get_dashboard
get_usage_windows-AreFull start end granularity token_id all_time event_id resolved =
    let s = given-text "start" start in
    let e = given-text "end" end in
    let t = given-id "token_id" token_id in
    let a = given-flag "all_time" all_time in
    let z = given-zone "tz" resolved in
    let g = given-granularity "granularity" granularity in
    (
      joined _ _ (joined _ _ (joined _ _ (joined _ _ s e) t) a) z,
      joined _ _ (joined _ _ (joined _ _ (joined _ _ (joined _ _ s e) g) t) a) z,
      t,
      z,
    )
