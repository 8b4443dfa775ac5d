-- ===== src/Channels/Csv.antt =====
-- The lists of group names of frontend/src/pages/admin/channels/utils.ts. A `Set` of texts is the
-- list of its elements in the order in which they were added.
pub mod Sets
pub mod Splits
pub mod Laws
use revlm.Base.{
  Bool, false, ◌||◌, Option, none, some, List, [], ◌∷◌, ◌++◌, if◌then◌else◌, Text, codes, text_eq,
  is_empty, trim, split, join,
}

abbrev pub mem : Text → List Text → Bool
mem v [] = false
mem v (x ∷ xs) = text_eq x v || mem v xs

unfoldable pub set_add : Text → List Text → List Text
set_add v xs = if mem v xs then xs else xs ++ v ∷ []

unfoldable pub set_delete : Text → List Text → List Text
set_delete v [] = []
set_delete v (x ∷ xs) = if text_eq x v then set_delete v xs else x ∷ set_delete v xs

-- The loop over the parts.
unfoldable pub add_parts : List Text → List Text → List Text
unfolding set_add
add_parts uniq [] = uniq
add_parts uniq (part ∷ parts) =
    let v = trim part in add_parts (if is_empty v then uniq else set_add v uniq) parts

abbrev pub parse_trimmed : Text → List Text
parse_trimmed [] = []
parse_trimmed (c ∷ s) = add_parts [] (split (c ∷ s) b',')

unfoldable pub parse_groups_csv : Text → List Text
unfolding add_parts
parse_groups_csv raw = parse_trimmed (trim raw)

unfoldable pub toggle_groups_csv : Text → Text → Bool → Text
toggle_groups_csv raw name checked =
    join
      (if checked
        then set_add name (parse_groups_csv raw)
        else set_delete name (parse_groups_csv raw))
      b','

-- The value that `JSON.parse` makes of a text, as far as `validateJSON` looks at it.
pub data Json : Type 0 where
  null : Json
  scalar : (truthy : Bool) → Json
  array : Json
  object : Json

pub data JsonKind : Type 0 where
  wants_object : JsonKind
  wants_array : JsonKind

abbrev judge_json : JsonKind → Option Json → Text
judge_json wants_array (some array) = []
judge_json wants_array (some _) = codes "JSON 必须为数组"
judge_json wants_object (some object) = []
judge_json wants_object (some _) = codes "JSON 必须为对象"
judge_json _ none = codes "JSON 不合法"

-- `parse` is `JSON.parse`, `none` where it throws.
unfoldable pub validate_json : (Text → Option Json) → Text → JsonKind → Text
validate_json parse raw kind =
    let s = trim raw in if is_empty s then [] else judge_json kind (parse s)
