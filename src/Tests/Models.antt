-- ===== src/Tests/Models.antt =====
-- The groups of the page of the models at concrete inputs. The order of texts is by their lengths.
use revlm.Base.{
  ℕ, ◌≡◌, ◌≢◌, ◌⊎◌, Bool, true, none, List, [], ◌∷◌, ◌++◌, Text, codes, leb, length, arith, All,
  any, find,
}
use revlm.Models.Groups.{
  UserManagedModel, Group, grouped_models, group_again, has_name, active_effect, current_group,
}
use revlm.Models.Groups.Grouping.{IsOrder, IsGrouping, grouped_models-IsGrouping}
use revlm.Models.Groups.Again.{group_again-grouped_models}
use revlm.Models.Groups.Active.{active_effect-settles}

abbrev by_length : Text → Text → Bool
by_length a b = leb (length a) (length b)

total : (m n : ℕ) → (leb m n ≡ true) ⊎ (leb n m ≡ true)
total m n = ground arith

trans : (l m n : ℕ) → leb l m ≡ true → leb m n ≡ true → leb l n ≡ true
trans l m n h k = ground arith

by_length-IsOrder : IsOrder by_length
by_length-IsOrder = record {
  total = λ a b. total (length a) (length b);
  trans = λ a b c. trans (length a) (length b) (length c);
}

abbrev model : Text → Text → UserManagedModel
model id owner = record {
  id = 1;
  public_id = id;
  group_name = [];
  owned_by = owner;
  input_usd_per_1m = codes "1";
  output_usd_per_1m = codes "1";
  cache_read_input_usd_per_1m = codes "0";
  cache_creation_input_usd_per_1m = codes "0";
  cache_creation_1h_input_usd_per_1m = codes "0";
  status = 1;
  icon_url = none;
}

abbrev models : List UserManagedModel
models =
    model (codes "abc") []
    ∷ model (codes "ab") (codes "openai")
    ∷ model (codes "a") (codes " openai ")
    ∷ []

grouped_models-IsGrouping_example :
    IsGrouping by_length by_length models (grouped_models by_length by_length models)
grouped_models-IsGrouping_example =
    grouped_models-IsGrouping by_length by_length by_length-IsOrder models

group_again-grouped_models_example :
    All (λ g. group_again by_length g.models ≡ g ∷ []) (grouped_models by_length by_length models)
group_again-grouped_models_example =
    group_again-grouped_models by_length by_length-IsOrder by_length models

abbrev two_groups : List Group
two_groups =
    record { group_name = codes "openai"; models = [] }
    ∷ record { group_name = codes "unknown"; models = [] }
    ∷ []

active_effect-settles_example :
    ((before after : List Group) (g : Group)
      → two_groups ≡ before ++ g ∷ after
      → g.group_name ≡ codes "unknown"
      → active_effect two_groups (codes "unknown") ≡ codes "unknown")
    × ((g : Group) (gs : List Group)
        → two_groups ≡ g ∷ gs
        → All (λ h. h.group_name ≢ codes "unknown") two_groups
        → active_effect two_groups (codes "unknown") ≡ g.group_name)
    × (active_effect two_groups (active_effect two_groups (codes "unknown"))
        ≡ active_effect two_groups (codes "unknown"))
    × (two_groups ≢ []
        → (any (has_name (active_effect two_groups (codes "unknown"))) two_groups ≡ true)
          × (current_group two_groups (active_effect two_groups (codes "unknown"))
              ≡ find (has_name (active_effect two_groups (codes "unknown"))) two_groups))
active_effect-settles_example = active_effect-settles two_groups (codes "unknown")
