-- ===== src/Models/Groups.antt =====
-- The groups of frontend/src/pages/ModelsPage.tsx, by the owner of a model. `le_id` and `le_name` say
-- that localeCompare, in the locale en-US of the models and of the second grouping and in the locale
-- zh-CN of the groups, is not positive. A `Map` is the list of its entries in the order of insertion.
pub mod Laws
pub mod Grouping
pub mod Again
pub mod Active
use revlm.Base.{
  ℕ, Bool, true, false, not, ◌&&◌, Option, none, some, List, [], ◌∷◌, ◌++◌, map, if◌then◌else◌,
  or_else, any, find, Text, codes, text_eq, trim,
}
use revlm.Api.{Reply, Outcome, loaded, failed, settle, or_text}
use revlm.Models.Sorting.{sort}

-- The prices stand as their prints.
pub record UserManagedModel : Type 0 where
  pub id : ℕ
  pub public_id : Text
  pub group_name : Text
  pub owned_by : Text
  pub input_usd_per_1m : Text
  pub output_usd_per_1m : Text
  pub cache_read_input_usd_per_1m : Text
  pub cache_creation_input_usd_per_1m : Text
  pub cache_creation_1h_input_usd_per_1m : Text
  pub status : ℕ
  pub icon_url : Option Text

abbrev pub unknown : Text
unknown = codes "unknown"

-- `(model.owned_by || '').trim() || 'unknown'`
unfoldable pub owner : UserManagedModel → Text
owner m = or_text (trim m.owned_by) unknown

unfoldable pub normalized : UserManagedModel → UserManagedModel
unfolding owner
normalized m = record m { group_name = trim m.group_name; owned_by = owner m }

-- The second grouping sets the owner alone.
unfoldable pub owned : UserManagedModel → UserManagedModel
unfolding owner
owned m = record m { owned_by = owner m }

pub record Group : Type 0 where
  pub group_name : Text
  pub models : List UserManagedModel

-- `buckets.get(key).push(m)`, with an empty list set before where there is none.
unfoldable pub push : Text → UserManagedModel → List Group → List Group
push key m [] = record { group_name = key; models = m ∷ [] } ∷ []
push key m (g ∷ gs) =
    if text_eq g.group_name key
    then record g { models = g.models ++ m ∷ [] } ∷ gs
    else g ∷ push key m gs

-- The loop over the models; `change` makes what is pushed.
unfoldable pub buckets :
    (UserManagedModel → UserManagedModel) → List Group → List UserManagedModel → List Group
unfolding push owner
buckets change gs [] = gs
buckets change gs (m ∷ ms) = buckets change (push (owner m) (change m) gs) ms

module _ (le_id : Text → Text → Bool) where
  abbrev pub le_model : UserManagedModel → UserManagedModel → Bool
  le_model a b = le_id a.public_id b.public_id

  abbrev pub sort_models : Group → Group
  sort_models g = record g { models = sort le_model g.models }

  -- The comparison of two groups: the unknown owner is the last one.
  module _ (le_name : Text → Text → Bool) where
    abbrev pub le_group : Group → Group → Bool
    le_group a b =
        if text_eq a.group_name unknown && not (text_eq b.group_name unknown)
        then false
        else if text_eq b.group_name unknown && not (text_eq a.group_name unknown)
        then true
        else le_name a.group_name b.group_name

    unfoldable pub group_by_owner :
        (UserManagedModel → UserManagedModel) → List UserManagedModel → List Group
    unfolding buckets sort
    group_by_owner change models = sort le_group (map sort_models (buckets change [] models))

    unfoldable pub grouped_models : List UserManagedModel → List Group
    unfolding group_by_owner normalized
    grouped_models models = group_by_owner normalized models

  unfoldable pub group_again : List UserManagedModel → List Group
  unfolding group_by_owner owned
  group_again models = group_by_owner le_id owned models

abbrev pub has_name : Text → Group → Bool
has_name name g = text_eq g.group_name name

-- The effect on the groups and the group that is active.
abbrev pub settled_on : List Group → Text → Text
settled_on [] active = active
settled_on (g ∷ gs) active = if any (has_name active) (g ∷ gs) then active else g.group_name

unfoldable pub active_effect : List Group → Text → Text
active_effect groups active = settled_on groups active

abbrev pub found_or : Option Group → List Group → Option Group
found_or (some g) gs = some g
found_or none [] = none
found_or none (g ∷ gs) = some g

-- `currentGroup`
unfoldable pub current_group : List Group → Text → Option Group
current_group groups active = found_or (find (has_name active) groups) groups

pub record Page : Type 0 where
  pub models : List UserManagedModel
  pub loading : Bool
  pub err : Text

abbrev pub absorbed : Outcome (List UserManagedModel) → Page → Page
absorbed (loaded d) p = record p { models = or_else d []; loading = false }
absorbed (failed message) p = record p { err = message; loading = false }

-- The first render loads the models.
unfoldable load : Reply (List UserManagedModel) → Page → Page
load reply p = absorbed (settle (codes "加载失败") reply) (record p { err = []; loading = true })
