-- ===== src/Widgets/Presence.antt =====
-- A panel that stays for a while after it was closed: frontend/src/hooks/usePresence.ts, as a
-- transition system of its renders, its animation frames and its timer.
use revlm.Base.{◌≡◌, Bool, true, false, Option, none, some, arith}

pub data Phase : Type 0 where
  enter : Phase
  leave : Phase

-- `frame` is the phase that a requested frame sets; `wanted` is the argument `open`.
pub record Presence : Type 0 where
  pub wanted : Bool
  pub present : Bool
  pub phase : Phase
  pub timer : Bool
  pub frame : Option Phase

abbrev pub phase_of : Bool → Phase
phase_of true = enter
phase_of false = leave

-- The effect; the clean-up of the run before it and its own first lines take the frame and the timer
-- away.
unfoldable pub effect : Presence → Presence
effect p = elim p.wanted [
  | true ↦ record p { timer = false; frame = some enter }
  | false ↦ record p { timer = true; frame = some leave }
]

abbrev initial : Bool → Presence
initial open_now = record {
  wanted = open_now;
  present = open_now;
  phase = phase_of open_now;
  timer = false;
  frame = none;
}

unfoldable pub mounted : Bool → Presence
unfolding effect
mounted open_now = effect (initial open_now)

abbrev same : Bool → Bool → Bool
same true b = b
same false true = false
same false false = true

-- A render with the argument `open_now`.
unfoldable pub rendered : Bool → Presence → Presence
unfolding effect
rendered open_now p = elim (same p.wanted open_now) [
  | true ↦ p
  | false ↦ effect (record p { wanted = open_now })
]

-- The requested frame comes.
unfoldable pub frame_comes : Phase → Presence → Presence
frame_comes enter p = record p { present = true; phase = enter; frame = none }
frame_comes leave p = record p { phase = leave; frame = none }

-- The timer runs off.
unfoldable pub timer_ends : Presence → Presence
timer_ends p = record p { present = false; timer = false }

pub data Step : Presence → Presence → Type 0 where
  renders : (p : Presence) (open_now : Bool) → Step p (rendered open_now p)
  -- The duration is another one.
  restarts : (p : Presence) → Step p (effect p)
  draws : (p : Presence) (f : Phase) → p.frame ≡ some f → Step p (frame_comes f p)
  expires : (p : Presence) → p.timer ≡ true → Step p (timer_ends p)

pub data Reach : Presence → Type 0 where
  mount : (open_now : Bool) → Reach (mounted open_now)
  next : {p q : Presence} → Reach p → Step p q → Reach q

abbrev FrameFits : Bool → Bool → Phase → Option Phase → Type 0
FrameFits wanted present phase (some f) = f ≡ phase_of wanted
FrameFits true present phase none = (present ≡ true) × (phase ≡ enter)
FrameFits false present phase none = phase ≡ leave

abbrev TimerFits : Bool → Bool → Bool → Type 0
TimerFits true present timer = timer ≡ false
TimerFits false present true = Unit
TimerFits false present false = present ≡ false

record IsSound (p : Presence) : Type 0 where
  frames : FrameFits p.wanted p.present p.phase p.frame
  timers : TimerFits p.wanted p.present p.timer

effect-IsSound : (p : Presence) → IsSound (effect p)
unfolding effect
effect-IsSound p = ground arith

rendered-IsSound : (open_now : Bool) (p : Presence) → IsSound p → IsSound (rendered open_now p)
unfolding rendered
rendered-IsSound open_now p h = ground (arith, effect-IsSound (record p { wanted = open_now }))

frame_comes-IsSound :
    (f : Phase) (p : Presence) → p.frame ≡ some f → IsSound p → IsSound (frame_comes f p)
unfolding frame_comes
frame_comes-IsSound enter p e h = ground arith
frame_comes-IsSound leave p e h = ground arith

timer_ends-IsSound : (p : Presence) → p.timer ≡ true → IsSound p → IsSound (timer_ends p)
unfolding timer_ends
timer_ends-IsSound p e h = ground arith

Step-IsSound : {p q : Presence} → Step p q → IsSound p → IsSound q
Step-IsSound (renders p open_now) h = rendered-IsSound open_now p h
Step-IsSound (restarts p) h = effect-IsSound p
Step-IsSound (draws p f e) h = frame_comes-IsSound f p e h
Step-IsSound (expires p e) h = timer_ends-IsSound p e h

Reach-IsSound : {p : Presence} → Reach p → IsSound p
unfolding mounted
Reach-IsSound (mount open_now) = effect-IsSound (initial open_now)
Reach-IsSound (next r s) = Step-IsSound s (Reach-IsSound r)

-- However often the panel is opened and closed: no timer that could hide it runs while it is wanted,
-- and once neither a frame nor the timer is awaited, it is there exactly if it is wanted, in the phase
-- that belongs to that.
pub Reach-settled :
    (p : Presence)
    → Reach p
    → (p.wanted ≡ true → p.timer ≡ false)
      × (p.frame ≡ none → p.timer ≡ false → (p.present ≡ p.wanted) × (p.phase ≡ phase_of p.wanted))
Reach-settled p r = let h = Reach-IsSound r in (λ w. ground arith, λ f t. ground arith)
