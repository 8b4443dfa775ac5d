-- ===== src/Channels/Csv/Splits.antt =====
-- Splitting at a separator and joining with it.
use revlm.Base.{
  ℕ, ◌≡◌, refl, ap, ◌∙◌, ◌≢◌, inl, inr, List, [], ◌∷◌, ◌++◌, arith, ◌==◌, Bool-cases, All, Text,
  split, split_step, join, Lacks,
}

split-ne-nil : (s : Text) (sep : ℕ) → split s sep ≢ []
split-ne-nil [] sep = λ e. cc
split-ne-nil (c ∷ s) sep = step-ne-nil (split s sep)
  where
    step-ne-nil : (ps : List Text) → split_step sep c ps ≢ []
    step-ne-nil [] = λ e. cc
    step-ne-nil (p ∷ ps) = ground arith

step_at_sep : (sep : ℕ) (ps : List Text) → ps ≢ [] → split_step sep sep ps ≡ [] ∷ ps
step_at_sep sep [] h = absurd (h refl)
step_at_sep sep (p ∷ ps) h = ground arith

split-append : (sep : ℕ) (p s : Text) → Lacks sep p → split (p ++ sep ∷ s) sep ≡ p ∷ split s sep
split-append sep [] s h = step_at_sep sep (split s sep) (split-ne-nil s sep)
split-append sep (c ∷ p) s (d, h) = rw (split-append sep p s h) (ground arith)

split_whole : (sep : ℕ) (p : Text) → Lacks sep p → split p sep ≡ p ∷ []
split_whole sep [] h = refl
split_whole sep (c ∷ p) (d, h) = rw (split_whole sep p h) (ground arith)

-- Splitting a join gives the parts back, if there is a part and none holds the separator.
pub split-join :
    (sep : ℕ) (p : Text) (ps : List Text)
    → All (Lacks sep) (p ∷ ps)
    → split (join (p ∷ ps) sep) sep ≡ p ∷ ps
split-join sep p [] (d, h) = split_whole sep p d
split-join sep p (q ∷ ps) (d, h) =
    split-append sep p (join (q ∷ ps) sep) d ∙ ap (◌∷◌ p) (split-join sep q ps h)

Lacks-step :
    (sep c : ℕ) (ps : List Text)
    → ps ≢ []
    → All (Lacks sep) ps
    → All (Lacks sep) (split_step sep c ps)
Lacks-step sep c [] some_part h = absurd (some_part refl)
Lacks-step sep c (p ∷ ps) some_part (d, h) = elim (Bool-cases (c == sep)) [
  | inl at_sep ↦ rw at_sep (tt, (d, h))
  | inr kept ↦ rw kept ((ground arith, d), h)
]

-- No part of a split holds the separator.
pub All-split : (sep : ℕ) (s : Text) → All (Lacks sep) (split s sep)
All-split sep [] = (tt, tt)
All-split sep (c ∷ s) = Lacks-step sep c (split s sep) (split-ne-nil s sep) (All-split sep s)
