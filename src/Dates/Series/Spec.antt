-- ===== src/Dates/Series/Spec.antt =====
-- What the filled series should be, and the laws of the map that the code builds on the way.
use revlm.Base.{
  ℕ, zero, suc, ◌≡◌, refl, ap, ◌∙◌, ◌≢◌, Bool, true, false, Option, none, some, List, [], ◌∷◌,
  arith, if◌then◌else◌, Text, text_eq, text_eq_iff, is_empty,
}
use revlm.Dates.Calendar.{Day, next_day}
use revlm.Dates.Series.{Point, normalize_daily_bucket_label, map_get, map_set, add_point, by_day}

-- The `n` days from `d` on.
abbrev pub days : ℕ → Day → List Day
days zero d = []
days (suc n) d = d ∷ days n (next_day d)

-- The second answer where there is no first.
abbrev pub first_of {ℓ} : {A : Type ℓ} → Option A → Option A → Option A
first_of none q = q
first_of (some a) q = some a

module _ {ℓ} {V : Type ℓ} where
  map_get-map_set :
      (k j : Text) (v : V) (m : List (Text × V))
      → map_get j (map_set k v m) ≡ (if text_eq k j then some v else map_get j m)
  unfolding map_get map_set
  map_get-map_set k j v [] = refl
  map_get-map_set k j v ((i, w) ∷ m) =
      ground (arith, text_eq_iff k j, text_eq_iff i k, text_eq_iff i j, map_get-map_set k j v m)

module _ {ℓ} {A : Type ℓ} where
  -- The last of the points whose label is `k`.
  unfoldable pub last_of : Text → List (Point A) → Option (Point A)
  last_of k [] = none
  last_of k (p ∷ ps) =
      first_of (last_of k ps)
        (if text_eq (normalize_daily_bucket_label p.bucket) k then some p else none)

  get_choice :
      (b : Bool) (p : Point A) (q : Option (Point A))
      → (if b then some p else q) ≡ first_of (if b then some p else none) q
  get_choice true p q = refl
  get_choice false p q = refl

  get-add :
      (k key : Text) (m : List (Text × Point A)) (p : Point A)
      → k ≢ []
      → map_get k (if is_empty key then m else map_set key p m)
        ≡ first_of (if text_eq key k then some p else none) (map_get k m)
  get-add [] [] m p h = absurd (h refl)
  get-add (c ∷ k) [] m p h = refl
  get-add k (c ∷ key) m p h =
      map_get-map_set (c ∷ key) k p m ∙ get_choice (text_eq (c ∷ key) k) p (map_get k m)

  first_of_assoc :
      (o p q : Option (Point A)) → first_of o (first_of p q) ≡ first_of (first_of o p) q
  first_of_assoc none p q = refl
  first_of_assoc (some a) p q = refl

  -- The map holds, under each label, the last point that has it.
  pub map_get-by_day :
      (k : Text) (m : List (Text × Point A)) (ps : List (Point A))
      → k ≢ []
      → map_get k (by_day m ps) ≡ first_of (last_of k ps) (map_get k m)
  unfolding by_day last_of
  map_get-by_day k m [] h = refl
  map_get-by_day k m (p ∷ ps) h =
      map_get-by_day k (add_point m p) ps h
      ∙ ap (first_of (last_of k ps)) (get-add k (normalize_daily_bucket_label p.bucket) m p h)
      ∙ first_of_assoc (last_of k ps) _ (map_get k m)
