-- ===== src/Widgets/Selection.antt =====
-- A selection that the address keeps: frontend/src/hooks/useAdminSelectionParam.ts. `URLSearchParams`
-- is the list of its pairs; the router takes what it is given for the new parameters.
pub mod Laws
use revlm.Base.{
  Bool, not, Option, none, some, List, [], ◌∷◌, if◌then◌else◌, or_else, keep, Text, text_eq,
  is_empty, trim,
}

abbrev pub SearchParams : Type 0
SearchParams = List (Text × Text)

abbrev pub is_named : Text → Text × Text → Bool
is_named name p = text_eq p.0 name

-- `searchParams.get(name)`
unfoldable pub get_param : Text → SearchParams → Option Text
get_param name [] = none
get_param name (p ∷ ps) = if is_named name p then some p.1 else get_param name ps

-- `next.delete(name)`
unfoldable pub delete_param : Text → SearchParams → SearchParams
delete_param name ps = keep (λ p. not (is_named name p)) ps

-- `next.set(name, value)`: in the place of the first of that name, or at the end.
unfoldable pub set_param : Text → Text → SearchParams → SearchParams
unfolding delete_param
set_param name value [] = (name, value) ∷ []
set_param name value (p ∷ ps) =
    if is_named name p then (name, value) ∷ delete_param name ps else p ∷ set_param name value ps

-- `value`
unfoldable pub selection : Text → SearchParams → Text
unfolding get_param
selection name ps = or_else (get_param name ps) []

-- `setValue`, of a number's print or a text, or of null.
unfoldable pub set_selection : Text → Option Text → SearchParams → SearchParams
unfolding set_param delete_param
set_selection name next ps =
    let normalized = trim (or_else next []) in
    if is_empty normalized then delete_param name ps else set_param name normalized ps
