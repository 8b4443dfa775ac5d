-- ===== src/Models/Groups/Grouping.antt =====
-- What the page of the models shows: each owner's models once and in order, and the choice of a group.
use revlm.Base.{
  ◌≡◌, ap, ◌∙◌, ◌≢◌, ◌⊎◌, Bool, true, false, List, [], ◌∷◌, map, keep, arith, Text, text_eq,
  text_eq_iff, All, any,
}
use revlm.Models.Sorting.{sort}
use revlm.Models.Sorting.Laws.{IsSorted, sort-IsSorted}
use revlm.Models.Groups.{
  UserManagedModel, normalized, Group, buckets, le_model, sort_models, le_group, group_by_owner,
  grouped_models, unknown, has_name,
}
use revlm.Models.Groups.Laws.{
  lookup, HasDistinctNames, has_owner, lookup-buckets_nil, buckets-HasDistinctNames,
  sort_models-HasDistinctNames, lookup-sort_models, lookup-sort, sort-HasDistinctNames,
}

-- The order of texts in a locale.
pub record IsOrder (le : Text → Text → Bool) : Type 0 where
  pub total : (a b : Text) → (le a b ≡ true) ⊎ (le b a ≡ true)
  pub trans : (a b c : Text) → le a b ≡ true → le b c ≡ true → le a c ≡ true

module _ (le_id le_name : Text → Text → Bool) where
  -- The order of the page: a group with others behind it has a known owner, and each one behind it is
  -- the unknown owner or has a name that does not come first.
  abbrev pub Precedes : Group → Group → Type 0
  Precedes g h =
      (g.group_name ≢ unknown)
      × ((h.group_name ≡ unknown) ⊎ (le_name g.group_name h.group_name ≡ true))

  abbrev pub InOrder : List Group → Type 0
  InOrder [] = Unit
  InOrder (g ∷ gs) = All (Precedes g) gs × InOrder gs

  le_group-Precedes :
      (g h : Group)
      → le_group le_id le_name g h ≡ true
      → text_eq h.group_name g.group_name ≡ false
      → Precedes g h
  le_group-Precedes g h before other = ground (
    arith,
    text_eq_iff g.group_name unknown,
    text_eq_iff h.group_name unknown,
    text_eq_iff h.group_name g.group_name,
  )

  All-Precedes :
      (g : Group) (gs : List Group)
      → All (λ h. le_group le_id le_name g h ≡ true) gs
      → any (has_name g.group_name) gs ≡ false
      → All (Precedes g) gs
  All-Precedes g [] h d = tt
  All-Precedes g (x ∷ gs) (h, hs) d =
      (le_group-Precedes g x h (ground arith), All-Precedes g gs hs (ground arith))

  IsSorted-InOrder :
      (gs : List Group) → IsSorted (le_group le_id le_name) gs → HasDistinctNames gs → InOrder gs
  IsSorted-InOrder [] s d = tt
  IsSorted-InOrder (g ∷ gs) s d = (All-Precedes g gs s.0 d.0, IsSorted-InOrder gs s.1 d.1)

  -- The groups stand for a function from the owners to their models.
  pub record IsGrouping (models : List UserManagedModel) (groups : List Group) : Type 0 where
    pub holds :
        (k : Text)
        → lookup k groups ≡ sort (le_model le_id) (map normalized (keep (has_owner k) models))
    pub distinct : HasDistinctNames groups
    pub in_order : InOrder groups
    pub sorted : IsSorted (le_group le_id le_name) groups

  module _ (order : IsOrder le_name) where
    le_group-total :
        (a b : Group) → (le_group le_id le_name a b ≡ true) ⊎ (le_group le_id le_name b a ≡ true)
    le_group-total a b = ground (arith, order.total a.group_name b.group_name)

    le_group_trans :
        (a b c : Group)
        → le_group le_id le_name a b ≡ true
        → le_group le_id le_name b c ≡ true
        → le_group le_id le_name a c ≡ true
    le_group_trans a b c h k = ground (arith, order.trans a.group_name b.group_name c.group_name)

    -- Where the comparison of names is total and transitive, however the models come: the groups have
    -- distinct names; the known owners stand in the order of names, and the unknown one is behind all
    -- of them; and the models under a name are those of that owner, all of them, sorted.
    pub grouped_models-IsGrouping :
        (models : List UserManagedModel) → IsGrouping models (grouped_models le_id le_name models)
    unfolding grouped_models group_by_owner
    grouped_models-IsGrouping models =
        let bs = buckets normalized [] models in
        let d =
          sort_models-HasDistinctNames le_id bs
            (buckets-HasDistinctNames normalized [] models tt) in
        let names = sort-HasDistinctNames (le_group le_id le_name) (map (sort_models le_id) bs) d in
        let ordered =
          sort-IsSorted (le_group le_id le_name) le_group-total le_group_trans
            (map (sort_models le_id) bs) in
        record {
          holds = λ k.
              lookup-sort (le_group le_id le_name) k (map (sort_models le_id) bs) d
              ∙ lookup-sort_models le_id k bs
              ∙ ap (sort (le_model le_id)) (lookup-buckets_nil normalized k models);
          distinct = names;
          in_order = IsSorted-InOrder _ ordered names;
          sorted = ordered;
        }
