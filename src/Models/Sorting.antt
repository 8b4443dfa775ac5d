-- ===== src/Models/Sorting.antt =====
-- `xs.sort(compare)`: the stable sort by a comparison, here by insertion. `le a b` says that
-- `compare(a, b)` is not positive.
pub mod Laws
use revlm.Base.{Bool, List, [], ◌∷◌, if◌then◌else◌}

module _ {A : Type 0} (le : A → A → Bool) where
  unfoldable pub insert : A → List A → List A
  insert x [] = x ∷ []
  insert x (y ∷ ys) = if le x y then x ∷ y ∷ ys else y ∷ insert x ys

  unfoldable pub sort : List A → List A
  unfolding insert
  sort [] = []
  sort (x ∷ xs) = insert x (sort xs)
