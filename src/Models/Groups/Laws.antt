-- ===== src/Models/Groups/Laws.antt =====
-- The groups of the page of the models against what they stand for: a list of models for each owner.
use revlm.Base.{
  ◌≡◌, refl, sym, ap, ◌∙◌, inl, inr, Bool, false, ◌||◌, List, [], ◌∷◌, ◌++◌, append-nil,
  append_assoc, map, keep, arith, if◌then◌else◌, Bool-cases, any, Text, text_eq, text_eq_iff,
}
use revlm.Models.Sorting.{insert, sort}
use revlm.Models.Sorting.Laws.{any-sort, any-insert}
use revlm.Models.Groups.{
  UserManagedModel, owner, Group, push, buckets, le_model, sort_models, has_name,
}

-- The models under a name.
pub lookup : Text → List Group → List UserManagedModel
lookup k [] = []
lookup k (g ∷ gs) = if text_eq g.group_name k then g.models else lookup k gs

abbrev pub HasDistinctNames : List Group → Type 0
HasDistinctNames [] = Unit
HasDistinctNames (g ∷ gs) = (any (has_name g.group_name) gs ≡ false) × HasDistinctNames gs

abbrev pub has_owner : Text → UserManagedModel → Bool
has_owner k m = text_eq (owner m) k

lookup-push :
    (k key : Text) (m : UserManagedModel) (gs : List Group)
    → lookup k (push key m gs) ≡ (if text_eq key k then lookup k gs ++ m ∷ [] else lookup k gs)
unfolding lookup push
lookup-push k key m [] = ground arith
lookup-push k key m (g ∷ gs) = ground (
  arith,
  lookup-push k key m gs,
  text_eq_iff g.group_name key,
  text_eq_iff g.group_name k,
  text_eq_iff key k,
)

module _ (change : UserManagedModel → UserManagedModel) where
  lookup-buckets :
      (k : Text) (gs : List Group) (ms : List UserManagedModel)
      → lookup k (buckets change gs ms) ≡ lookup k gs ++ map change (keep (has_owner k) ms)
  unfolding buckets
  lookup-buckets k gs [] = sym (append-nil (lookup k gs))
  lookup-buckets k gs (m ∷ ms) = elim (Bool-cases (text_eq (owner m) k)) [
    | inl same ↦
        rw
          (
            lookup-buckets k (push (owner m) (change m) gs) ms,
            lookup-push k (owner m) (change m) gs,
            same,
          )
          (append_assoc (lookup k gs) (change m ∷ []) _)
    | inr other ↦
        rw
          (
            lookup-buckets k (push (owner m) (change m) gs) ms,
            lookup-push k (owner m) (change m) gs,
            other,
          )
          refl
  ]

  pub lookup-buckets_nil :
      (k : Text) (ms : List UserManagedModel)
      → lookup k (buckets change [] ms) ≡ map change (keep (has_owner k) ms)
  unfolding lookup
  lookup-buckets_nil k ms = lookup-buckets k [] ms

  any-push :
      (k key : Text) (m : UserManagedModel) (gs : List Group)
      → any (has_name k) (push key m gs) ≡ (any (has_name k) gs || text_eq key k)
  unfolding push
  any-push k key m [] = ground arith
  any-push k key m (g ∷ gs) = ground (
    arith,
    any-push k key m gs,
    text_eq_iff g.group_name key,
    text_eq_iff g.group_name k,
    text_eq_iff key k,
  )

  push-HasDistinctNames :
      (key : Text) (m : UserManagedModel) (gs : List Group)
      → HasDistinctNames gs
      → HasDistinctNames (push key m gs)
  unfolding push
  push-HasDistinctNames key m [] h = (refl, tt)
  push-HasDistinctNames key m (g ∷ gs) h = elim (Bool-cases (text_eq g.group_name key)) [
    | inl same ↦ rw same h
    | inr other ↦ rw other (
      ground (
        arith,
        any-push g.group_name key m gs,
        text_eq_iff g.group_name key,
        text_eq_iff key g.group_name,
      ),
      push-HasDistinctNames key m gs h.1,
    )
  ]

  pub buckets-HasDistinctNames :
      (gs : List Group) (ms : List UserManagedModel)
      → HasDistinctNames gs
      → HasDistinctNames (buckets change gs ms)
  unfolding buckets
  buckets-HasDistinctNames gs [] h = h
  buckets-HasDistinctNames gs (m ∷ ms) h =
      buckets-HasDistinctNames (push (owner m) (change m) gs) ms
        (push-HasDistinctNames (owner m) (change m) gs h)

module _ (le_id : Text → Text → Bool) where
  any-sort_models :
      (k : Text) (gs : List Group)
      → any (has_name k) (map (sort_models le_id) gs) ≡ any (has_name k) gs
  any-sort_models k [] = refl
  any-sort_models k (g ∷ gs) = ap (λ b. text_eq g.group_name k || b) (any-sort_models k gs)

  pub sort_models-HasDistinctNames :
      (gs : List Group) → HasDistinctNames gs → HasDistinctNames (map (sort_models le_id) gs)
  sort_models-HasDistinctNames [] h = tt
  sort_models-HasDistinctNames (g ∷ gs) h =
      (any-sort_models g.group_name gs ∙ h.0, sort_models-HasDistinctNames gs h.1)

  pub lookup-sort_models :
      (k : Text) (gs : List Group)
      → lookup k (map (sort_models le_id) gs) ≡ sort (le_model le_id) (lookup k gs)
  unfolding lookup sort
  lookup-sort_models k [] = refl
  lookup-sort_models k (g ∷ gs) = elim (Bool-cases (text_eq g.group_name k)) [
    | inl here ↦ rw here refl
    | inr behind ↦ rw behind (lookup-sort_models k gs)
  ]

lookup-cons :
    (k : Text) (g : Group) (xs ys : List Group)
    → lookup k xs ≡ lookup k ys
    → lookup k (g ∷ xs) ≡ lookup k (g ∷ ys)
unfolding lookup
lookup-cons k g xs ys e = ap (λ ms. if text_eq g.group_name k then g.models else ms) e

module _ (le : Group → Group → Bool) where
  lookup-insert :
      (k : Text) (g : Group) (gs : List Group)
      → any (has_name g.group_name) gs ≡ false
      → lookup k (insert le g gs) ≡ lookup k (g ∷ gs)
  unfolding lookup insert
  lookup-insert k g [] h = refl
  lookup-insert k g (x ∷ xs) h = ground (
    arith,
    lookup-insert k g xs,
    text_eq_iff x.group_name g.group_name,
    text_eq_iff x.group_name k,
    text_eq_iff g.group_name k,
  )

  pub lookup-sort :
      (k : Text) (gs : List Group) → HasDistinctNames gs → lookup k (sort le gs) ≡ lookup k gs
  unfolding sort
  lookup-sort k [] h = refl
  lookup-sort k (g ∷ gs) h =
      lookup-insert k g (sort le gs) (any-sort le (has_name g.group_name) gs ∙ h.0)
      ∙ lookup-cons k g (sort le gs) gs (lookup-sort k gs h.1)

  insert-HasDistinctNames :
      (g : Group) (gs : List Group)
      → any (has_name g.group_name) gs ≡ false
      → HasDistinctNames gs
      → HasDistinctNames (insert le g gs)
  unfolding insert
  insert-HasDistinctNames g [] h d = (refl, tt)
  insert-HasDistinctNames g (x ∷ xs) h d = elim (Bool-cases (le g x)) [
    | inl first ↦ rw first (h, d)
    | inr behind ↦ rw behind (
      ground (
        arith,
        any-insert le (has_name x.group_name) g xs,
        text_eq_iff x.group_name g.group_name,
        text_eq_iff g.group_name x.group_name,
      ),
      insert-HasDistinctNames g xs (ground arith) d.1,
    )
  ]

  pub sort-HasDistinctNames :
      (gs : List Group) → HasDistinctNames gs → HasDistinctNames (sort le gs)
  unfolding sort
  sort-HasDistinctNames [] h = tt
  sort-HasDistinctNames (g ∷ gs) h =
      insert-HasDistinctNames g (sort le gs) (any-sort le (has_name g.group_name) gs ∙ h.0)
        (sort-HasDistinctNames gs h.1)
