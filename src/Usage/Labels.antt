-- ===== src/Usage/Labels.antt =====
-- The texts of frontend/src/pages/usage/usageUtils.ts on times, names and errors. `read` is `new Date`
-- with the getters of the browser's time zone, `none` where it makes an invalid date.
pub mod Laws
use revlm.Base.{
  ℕ, Option, none, some, List, [], ◌∷◌, ◌++◌, ◌==◌, if◌then◌else◌, or_else, Text, codes, trim,
  to_text,
}
use revlm.Api.{or_text}
use revlm.Dates.Calendar.{Day}
use revlm.Dates.Input.{pad_two, format_date_input_local}

pub record Moment : Type 0 where
  pub date : Day
  pub hours : ℕ
  pub minutes : ℕ
  pub seconds : ℕ

abbrev pub two : ℕ → Text
two n = pad_two (to_text n)

abbrev local_date : Option Moment → Text
local_date none = []
local_date (some m) = format_date_input_local m.date

unfoldable pub format_local_date : (Text → Option Moment) → Text → Text
format_local_date read iso = local_date (read iso)

abbrev date_time_minute : Text → Option Moment → Text
date_time_minute iso none = iso
date_time_minute iso (some m) =
    format_date_input_local m.date ++ b' ' ∷ two m.hours ++ b':' ∷ two m.minutes

abbrev date_time : Text → Option Moment → Text
date_time iso none = iso
date_time iso (some m) =
    format_date_input_local m.date
    ++ b' ' ∷ two m.hours
    ++ b':' ∷ two m.minutes
    ++ b':' ∷ two m.seconds

unfoldable pub format_local_date_time : (Text → Option Moment) → Text → Text
format_local_date_time read iso = date_time iso (read iso)

unfoldable pub format_local_date_time_minute : (Text → Option Moment) → Text → Text
format_local_date_time_minute read iso = date_time_minute iso (read iso)

unfoldable normalize_service_tier : Option Text → Text
normalize_service_tier raw = trim (or_else raw [])

abbrev service_tier_badge_label : Option Text → Text
service_tier_badge_label raw = normalize_service_tier raw

unfoldable service_tier_text : Option Text → Text
unfolding normalize_service_tier
service_tier_text raw = or_text (normalize_service_tier raw) (b'-' ∷ [])

-- The message goes in brackets behind the class, if there is one.
abbrev pub with_message : Text → Text → Text
with_message cls [] = cls
with_message [] (c ∷ msg) = c ∷ msg
with_message (k ∷ cls) (c ∷ msg) = k ∷ (cls ++ b' ' ∷ b'(' ∷ c ∷ (msg ++ b')' ∷ []))

unfoldable pub error_text : Option Text → Option Text → Text
error_text err_class err_message =
    with_message (trim (or_else err_class [])) (trim (or_else err_message []))

-- A token, as far as its name goes.
record NamedToken : Type 0 where
  pub id : ℕ
  pub name : Option Text

abbrev token_of : ℕ → List (ℕ × NamedToken) → Option NamedToken
token_of id [] = none
token_of id ((k, t) ∷ ts) = if k == id then some t else token_of id ts

-- `if (tok?.id) return `Token #${tok.id}`` and the last return.
abbrev token_number : Option NamedToken → Text
token_number none = b'-' ∷ []
token_number (some t) = if t.id == 0 then b'-' ∷ [] else codes "Token #" ++ to_text t.id

abbrev raw_name : Option NamedToken → Text
raw_name none = []
raw_name (some t) = or_else t.name []

unfoldable token_name_from_map : List (ℕ × NamedToken) → ℕ → Text
token_name_from_map tokens id =
    or_text (trim (raw_name (token_of id tokens))) (token_number (token_of id tokens))
