-- ===== src/Models/Groups/Again.antt =====
-- The second grouping of the page of the models, of one group's models by their owners.
use revlm.Base.{
  ◌≡◌, refl, sym, ap, ◌∙◌, ◌≢◌, inl, inr, Bool, List, [], ◌∷◌, ◌++◌, map, arith, append-nil,
  append_assoc, Bool-cases, All, All-append, All-imp, Text, text_eq, text_eq_iff, text_eq_refl,
  trim, trim_idem,
}
use mathlib.Core.Path.{ap₂}
use revlm.Api.{or_text}
use revlm.Models.Sorting.{insert, sort}
use revlm.Models.Sorting.Laws.{IsSorted, All-sort, sort-IsSorted, sort_of_IsSorted}
use revlm.Models.Groups.{
  UserManagedModel, unknown, owner, normalized, owned, Group, push, buckets, le_model, sort_models,
  le_group, group_by_owner, grouped_models, group_again,
}
use revlm.Models.Groups.Grouping.{IsOrder}

-- The models of a group, each with the owner that the group names.
record IsOwned (g : Group) : Type 0 where
  owners : All (λ m. owner m ≡ g.group_name) g.models
  fixed : All (λ m. owned m ≡ m) g.models
  some_model : g.models ≢ []

or_unknown :
    (t : Text) → trim t ≡ t → or_text (trim (or_text t unknown)) unknown ≡ or_text t unknown
unfolding trim
or_unknown [] e = refl
or_unknown (c ∷ t) e = ap (λ s. or_text s unknown) e

owner-normalized : (m : UserManagedModel) → owner (normalized m) ≡ owner m
unfolding owner normalized
owner-normalized m = or_unknown (trim m.owned_by) (trim_idem m.owned_by)

owned-normalized : (m : UserManagedModel) → owned (normalized m) ≡ normalized m
unfolding owned normalized owner
owned-normalized m = λ i. record (normalized m) { owned_by = owner-normalized m i }

append-ne-nil : (xs : List UserManagedModel) (m : UserManagedModel) → xs ++ m ∷ [] ≢ []
append-ne-nil [] m h = cc
append-ne-nil (x ∷ xs) m h = cc

push-IsOwned :
    (m : UserManagedModel) (gs : List Group)
    → All IsOwned gs
    → All IsOwned (push (owner m) (normalized m) gs)
unfolding push
push-IsOwned m [] h = (
  record {
    owners = (owner-normalized m, tt);
    fixed = (owned-normalized m, tt);
    some_model = λ e. cc;
  },
  tt,
)
push-IsOwned m (g ∷ gs) h = elim (Bool-cases (text_eq g.group_name (owner m))) [
  | inl here ↦ rw here (
    record {
      owners =
          All-append _ g.models (normalized m ∷ []) h.0.owners
            (owner-normalized m ∙ sym ((text_eq_iff g.group_name (owner m)).0 here), tt);
      fixed = All-append _ g.models (normalized m ∷ []) h.0.fixed (owned-normalized m, tt);
      some_model = append-ne-nil g.models (normalized m);
    },
    h.1,
  )
  | inr behind ↦ rw behind (h.0, push-IsOwned m gs h.1)
]

buckets-IsOwned :
    (gs : List Group) (ms : List UserManagedModel)
    → All IsOwned gs
    → All IsOwned (buckets normalized gs ms)
unfolding buckets
buckets-IsOwned gs [] h = h
buckets-IsOwned gs (m ∷ ms) h =
    buckets-IsOwned (push (owner m) (normalized m) gs) ms (push-IsOwned m gs h)

-- Models of one owner make one group.
buckets-owned :
    (name : Text) (xs ms : List UserManagedModel)
    → All (λ m. owner m ≡ name) ms
    → All (λ m. owned m ≡ m) ms
    → buckets owned (record { group_name = name; models = xs } ∷ []) ms
      ≡ record { group_name = name; models = xs ++ ms } ∷ []
unfolding buckets push
buckets-owned name xs [] h k =
    ap (λ ys. record { group_name = name; models = ys } ∷ []) (sym (append-nil xs))
buckets-owned name xs (m ∷ ms) h k =
    rw (h.0, k.0, text_eq_refl name)
      (buckets-owned name (xs ++ m ∷ []) ms h.1 k.1
        ∙ ap (λ ys. record { group_name = name; models = ys } ∷ []) (append_assoc xs (m ∷ []) ms))

buckets_of_one :
    (name : Text) (m : UserManagedModel) (ms : List UserManagedModel)
    → All (λ x. owner x ≡ name) (m ∷ ms)
    → All (λ x. owned x ≡ x) (m ∷ ms)
    → buckets owned [] (m ∷ ms) ≡ record { group_name = name; models = m ∷ ms } ∷ []
unfolding buckets push
buckets_of_one name m ms h k =
    ap₂ (λ key x. buckets owned (record { group_name = key; models = x ∷ [] } ∷ []) ms) h.0 k.0
    ∙ buckets-owned name (m ∷ []) ms h.1 k.1

module _ (le_id : Text → Text → Bool) where
  group_again-single :
      (name : Text) (ms : List UserManagedModel)
      → ms ≢ []
      → All (λ m. owner m ≡ name) ms
      → All (λ m. owned m ≡ m) ms
      → IsSorted (le_model le_id) ms
      → group_again le_id ms ≡ record { group_name = name; models = ms } ∷ []
  unfolding group_again group_by_owner sort insert
  group_again-single name [] n h k s = absurd (n refl)
  group_again-single name (m ∷ ms) n h k s =
      ap (λ bs. sort (le_group le_id le_id) (map (sort_models le_id) bs))
        (buckets_of_one name m ms h k)
      ∙ ap (λ ys. record { group_name = name; models = ys } ∷ [])
          (sort_of_IsSorted (le_model le_id) (m ∷ ms) s)

  sort-ne-nil : (xs : List UserManagedModel) → xs ≢ [] → sort (le_model le_id) xs ≢ []
  unfolding sort insert
  sort-ne-nil [] n h = n refl
  sort-ne-nil (x ∷ xs) n h = insert-ne-nil x (sort (le_model le_id) xs) h
    where
      insert-ne-nil :
          (x : UserManagedModel) (ys : List UserManagedModel) → insert (le_model le_id) x ys ≢ []
      insert-ne-nil x [] h = cc
      insert-ne-nil x (y ∷ ys) h = ground (arith, h)

  -- A group as the page sorts it.
  record IsShown (g : Group) : Type 0 where
    own : IsOwned g
    in_order : IsSorted (le_model le_id) g.models

  module _ (order : IsOrder le_id) where
    IsShown-sort_models :
        (gs : List Group) → All IsOwned gs → All IsShown (map (sort_models le_id) gs)
    IsShown-sort_models [] h = tt
    IsShown-sort_models (g ∷ gs) (own, h) = (
      record {
        own = record {
          owners = All-sort (le_model le_id) _ g.models own.owners;
          fixed = All-sort (le_model le_id) _ g.models own.fixed;
          some_model = sort-ne-nil g.models own.some_model;
        };
        in_order =
            sort-IsSorted (le_model le_id) (λ a b. order.total a.public_id b.public_id)
              (λ a b c. order.trans a.public_id b.public_id c.public_id) g.models;
      },
      IsShown-sort_models gs h,
    )

    -- Where the comparison of models is total and transitive, grouping the models of a group by their
    -- owners again gives that group alone, as it is.
    pub group_again-grouped_models :
        (le_name : Text → Text → Bool) (models : List UserManagedModel)
        → All (λ g. group_again le_id g.models ≡ g ∷ []) (grouped_models le_id le_name models)
    unfolding grouped_models group_by_owner
    group_again-grouped_models le_name models =
        let gs = map (sort_models le_id) (buckets normalized [] models) in
        All-imp again (sort (le_group le_id le_name) gs) (
          All-sort (le_group le_id le_name) IsShown gs
            (IsShown-sort_models (buckets normalized [] models) (buckets-IsOwned [] models tt)))
      where
        again : (g : Group) → IsShown g → group_again le_id g.models ≡ g ∷ []
        again g h =
            group_again-single g.group_name g.models h.own.some_model h.own.owners h.own.fixed
              h.in_order
