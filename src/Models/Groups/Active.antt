-- ===== src/Models/Groups/Active.antt =====
-- The group that is active on the page of the models.
use revlm.Base.{
  ◌≡◌, refl, sym, ap, subst, ◌≢◌, inl, inr, true, false, ◌||◌, List, [], ◌∷◌, ◌++◌, arith, All,
  text_eq_iff, if◌then◌else◌, Bool-cases, any, find, Text, text_eq, text_eq_refl,
}
use revlm.Models.Groups.{Group, has_name, settled_on, active_effect, found_or, current_group}

found_or-find :
    (k : Text) (xs ys : List Group)
    → any (has_name k) xs ≡ true
    → found_or (find (has_name k) xs) ys ≡ find (has_name k) xs
found_or-find k [] ys h = cc
found_or-find k (x ∷ xs) ys h = elim (Bool-cases (text_eq x.group_name k)) [
  | inl here ↦ rw here refl
  | inr behind ↦ rw behind (found_or-find k xs ys (rw behind at h))
]

abbrev IsSettled : List Group → Text → Type 0
IsSettled groups a =
    (settled_on groups a ≡ a)
    × (groups ≢ []
        → (any (has_name a) groups ≡ true)
          × (found_or (find (has_name a) groups) groups ≡ find (has_name a) groups))

IsSettled-of_any :
    (g : Group) (gs : List Group) (a : Text)
    → any (has_name a) (g ∷ gs) ≡ true
    → IsSettled (g ∷ gs) a
IsSettled-of_any g gs a h =
    (ap (λ b. if b then a else g.group_name) h, λ n. (h, found_or-find a (g ∷ gs) (g ∷ gs) h))

kept_of_any :
    (groups : List Group) (active : Text)
    → any (has_name active) groups ≡ true
    → settled_on groups active ≡ active
kept_of_any [] active h = refl
kept_of_any (g ∷ gs) active h = ap (λ b. if b then active else g.group_name) h

any-mid :
    (active : Text) (before after : List Group) (g : Group)
    → g.group_name ≡ active
    → any (has_name active) (before ++ g ∷ after) ≡ true
any-mid active [] after g e = ground (arith, (text_eq_iff g.group_name active).1 e)
any-mid active (h ∷ before) after g e = ground (arith, any-mid active before after g e)

settled_on-IsSettled :
    (groups : List Group) (active : Text) → IsSettled groups (settled_on groups active)
settled_on-IsSettled [] active = (refl, λ n. absurd (n refl))
settled_on-IsSettled (g ∷ gs) active = elim (Bool-cases (any (has_name active) (g ∷ gs))) [
  | inl there ↦
      subst (IsSettled (g ∷ gs)) (sym (ap (λ b. if b then active else g.group_name) there))
        (IsSettled-of_any g gs active there)
  | inr gone ↦
      subst (IsSettled (g ∷ gs)) (sym (ap (λ b. if b then active else g.group_name) gone)) (
        IsSettled-of_any g gs g.group_name
          (ap (λ b. b || any (has_name g.group_name) gs) (text_eq_refl g.group_name)))
]

none_of_All :
    (active : Text) (groups : List Group)
    → All (λ h. h.group_name ≢ active) groups
    → any (has_name active) groups ≡ false
none_of_All active [] h = refl
none_of_All active (g ∷ gs) (other, h) =
    ground (arith, text_eq_iff g.group_name active, none_of_All active gs h)

-- The effect keeps the active name if a group has it; if none has it, the name of the first group
-- becomes active. It ends with its first run: a second one changes nothing. Where there are groups,
-- the active name is then one of theirs, and the group that is shown has it.
pub active_effect-settles :
    (groups : List Group) (active : Text)
    → let a = active_effect groups active in
      ((before after : List Group) (g : Group)
        → groups ≡ before ++ g ∷ after
        → g.group_name ≡ active
        → a ≡ active)
      × ((g : Group) (gs : List Group)
          → groups ≡ g ∷ gs
          → All (λ h. h.group_name ≢ active) groups
          → a ≡ g.group_name)
      × (active_effect groups a ≡ a)
      × (groups ≢ []
          → (any (has_name a) groups ≡ true) × (current_group groups a ≡ find (has_name a) groups))
unfolding active_effect current_group
active_effect-settles groups active = (
  λ before after g e n. kept_of_any groups active (rw e (any-mid active before after g n)),
  λ g gs e none_has. rw e (
      ap (λ b. if b then active else g.group_name)
        (none_of_All active (g ∷ gs) (subst (All (λ h. h.group_name ≢ active)) e none_has))),
  (settled_on-IsSettled groups active).0,
  (settled_on-IsSettled groups active).1,
)
