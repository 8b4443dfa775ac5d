-- ===== src/Usage/Labels/Laws.antt =====
-- How the texts of the usage pages relate.
use revlm.Base.{◌≡◌, refl, ◌↔◌, Option, some, [], ◌∷◌, ◌++◌, arith, or_else, Text, trim}
use revlm.Usage.Labels.{
  Moment, two, format_local_date, format_local_date_time, format_local_date_time_minute,
  with_message, error_text,
}

-- The three prints of a time that can be read differ in their ends alone: the one to the minute is
-- the date, a space, hours and minutes, and the one to the second adds the seconds.
pub format_local_date_time_lem :
    (read : Text → Option Moment) (iso : Text) (m : Moment)
    → read iso ≡ some m
    → (format_local_date_time_minute read iso
        ≡ format_local_date read iso ++ b' ' ∷ two m.hours ++ b':' ∷ two m.minutes)
      × (format_local_date_time read iso
          ≡ format_local_date_time_minute read iso ++ b':' ∷ two m.seconds)
unfolding format_local_date format_local_date_time format_local_date_time_minute
format_local_date_time_lem read iso m e = rw e (refl, refl)

with_message-empty : (cls msg : Text) → (with_message cls msg ≡ []) ↔ ((cls ≡ []) × (msg ≡ []))
with_message-empty [] [] = ground arith
with_message-empty (k ∷ cls) [] = ground arith
with_message-empty [] (c ∷ msg) = ground arith
with_message-empty (k ∷ cls) (c ∷ msg) = ground arith

-- An error has no text exactly if both its class and its message are blank.
pub error_text-empty :
    (cls msg : Option Text)
    → (error_text cls msg ≡ []) ↔ ((trim (or_else cls []) ≡ []) × (trim (or_else msg []) ≡ []))
unfolding error_text
error_text-empty cls msg = with_message-empty (trim (or_else cls [])) (trim (or_else msg []))
