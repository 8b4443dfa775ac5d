-- ===== src/Widgets/Suggest/Merge.antt =====
-- The items that the panel shows: `mergedItems` in frontend/src/components/GenericSuggestInput.tsx.
use revlm.Base.{Bool, Option, none, some, List, [], ◌∷◌, ◌++◌, Text, text_eq, if◌then◌else◌, any}
use revlm.Widgets.Suggest.{SuggestInput, query_of}

module _ {T : Type 0} (key : T → Text) where
  abbrev pub has_key : Text → T → Bool
  has_key k x = text_eq (key x) k

  -- `append`, for each item; `seen` holds the keys of `out`.
  unfoldable pub append_new : List T → List T → List T
  append_new out [] = out
  append_new out (x ∷ xs) = append_new (if any (has_key (key x)) out then out else out ++ x ∷ []) xs

  abbrev pub local_items : Option (Text → List T → List T) → SuggestInput T → List T
  local_items none s = []
  local_items (some f) s = f (query_of s) s.items

  -- `local` is `localItems`, where the page gives it.
  unfoldable pub merged_items : Option (Text → List T → List T) → SuggestInput T → List T
  unfolding append_new
  merged_items local s = append_new (append_new [] (local_items local s)) s.items
