-- ===== src/Widgets/Suggest/Items.antt =====
-- Each key is shown once, by the first item that has it.
use revlm.Base.{
  ◌≡◌, refl, sym, ap, ◌∙◌, inl, inr, Bool, true, false, not, ◌&&◌, keep, Option, none, some, List,
  [], ◌∷◌, ◌++◌, append_assoc, append-nil, if◌then◌else◌, arith, Bool-cases, find, any, Text,
  text_eq, text_eq_iff, trim,
}
use revlm.Widgets.Suggest.{SuggestInput}
use revlm.Widgets.Suggest.Merge.{has_key, append_new, local_items, merged_items}

text_eq_sym : (s t : Text) → text_eq s t ≡ false → text_eq t s ≡ false
text_eq_sym s t h = ground (arith, text_eq_iff s t, text_eq_iff t s)

-- What the page's own function makes of the text that is sought and of the fetched items.
abbrev pub own_items : {T : Type 0} → Option (Text → List T → List T) → Text → List T → List T
own_items none q items = []
own_items (some f) q items = f q items

module _ {T : Type 0} (key : T → Text) where
  -- No two items have the same key.
  abbrev pub Distinct : List T → Type 0
  Distinct [] = Unit
  Distinct (x ∷ xs) = (any (has_key key (key x)) xs ≡ false) × Distinct xs

  any-append_other :
      (k : Text) (xs : List T) (x : T)
      → any (has_key key k) xs ≡ false
      → text_eq (key x) k ≡ false
      → any (has_key key k) (xs ++ x ∷ []) ≡ false
  any-append_other k [] x h other = ground arith
  any-append_other k (y ∷ xs) x h other = ground (arith, any-append_other k xs x)

  Distinct-append :
      (xs : List T) (x : T)
      → Distinct xs
      → any (has_key key (key x)) xs ≡ false
      → Distinct (xs ++ x ∷ [])
  Distinct-append [] x d h = (refl, tt)
  Distinct-append (y ∷ xs) x (fresh, d) h = (
    any-append_other (key y) xs x fresh (text_eq_sym (key y) (key x) (ground arith)),
    Distinct-append xs x d (ground arith),
  )

  append_new-Distinct : (out xs : List T) → Distinct out → Distinct (append_new key out xs)
  unfolding append_new
  append_new-Distinct out [] d = d
  append_new-Distinct out (x ∷ xs) d = elim (Bool-cases (any (has_key key (key x)) out)) [
    | inl seen ↦ rw seen (append_new-Distinct out xs d)
    | inr fresh ↦ rw fresh (append_new-Distinct (out ++ x ∷ []) xs (Distinct-append out x d fresh))
  ]

  -- An item with another key, or with a key that is there, is not found.
  find-other :
      (k : Text) (out xs : List T) (x : T)
      → text_eq (key x) k ≡ false
      → find (has_key key k) (out ++ x ∷ xs) ≡ find (has_key key k) (out ++ xs)
  find-other k [] xs x h = ground arith
  find-other k (y ∷ out) xs x h = ground (arith, find-other k out xs x h)

  find-seen :
      (k : Text) (out xs : List T) (x : T)
      → any (has_key key (key x)) out ≡ true
      → find (has_key key k) (out ++ x ∷ xs) ≡ find (has_key key k) (out ++ xs)
  find-seen k [] xs x h = cc
  find-seen k (y ∷ out) xs x h = ground (
    arith,
    find-seen k out xs x,
    find-other k out xs x,
    text_eq_iff (key y) (key x),
    text_eq_iff (key y) k,
    text_eq_iff (key x) k,
  )

  find-append_new :
      (k : Text) (out xs : List T)
      → find (has_key key k) (append_new key out xs) ≡ find (has_key key k) (out ++ xs)
  unfolding append_new
  find-append_new k out [] = ap (find (has_key key k)) (sym (append-nil out))
  find-append_new k out (x ∷ xs) = elim (Bool-cases (any (has_key key (key x)) out)) [
    | inl seen ↦ rw seen (find-append_new k out xs ∙ sym (find-seen k out xs x seen))
    | inr fresh ↦ rw fresh (
        find-append_new k (out ++ x ∷ []) xs
        ∙ ap (find (has_key key k)) (append_assoc out (x ∷ []) xs))
  ]

  abbrev first_of : Option T → Option T → Option T
  first_of none o = o
  first_of (some x) o = some x

  find-append :
      (k : Text) (xs ys : List T)
      → find (has_key key k) (xs ++ ys)
        ≡ first_of (find (has_key key k) xs) (find (has_key key k) ys)
  find-append k [] ys = refl
  find-append k (x ∷ xs) ys = ground (arith, find-append k xs ys)

  -- A list without the items behind another one with the same key, in its order.
  pub firsts : List T → List T
  firsts [] = []
  firsts (x ∷ xs) = x ∷ keep (λ y. not (has_key key (key x) y)) (firsts xs)

  abbrev is_new : List T → T → Bool
  is_new out y = not (any (has_key key (key y)) out)

  -- What has the key of an item that is there is not new.
  is_new_other :
      (out : List T) (x : T) (ys : List T)
      → any (has_key key (key x)) out ≡ true
      → keep (is_new out) (keep (λ y. not (has_key key (key x) y)) ys) ≡ keep (is_new out) ys
  is_new_other out x [] seen = refl
  is_new_other out x (y ∷ ys) seen = elim (Bool-cases (has_key key (key x) y)) [
    | inl same ↦
        let e : key y ≡ key x = (text_eq_iff (key y) (key x)).0 same in
        rw (same, e, seen) (is_new_other out x ys seen)
    | inr other ↦ rw other (elim (Bool-cases (is_new out y)) [
      | inl new ↦ rw new (ap (◌∷◌ y) (is_new_other out x ys seen))
      | inr old ↦ rw old (is_new_other out x ys seen)
    ])
  ]

  -- The items that are new beside one more.
  is_new-append :
      (out : List T) (x y : T)
      → is_new (out ++ x ∷ []) y ≡ (is_new out y && not (has_key key (key x) y))
  is_new-append [] x y = ground (arith, text_eq_iff (key x) (key y), text_eq_iff (key y) (key x))
  is_new-append (z ∷ out) x y = ground (arith, is_new-append out x y)

  keep-is_new_append :
      (out : List T) (x : T) (ys : List T)
      → keep (is_new (out ++ x ∷ [])) ys
        ≡ keep (is_new out) (keep (λ y. not (has_key key (key x) y)) ys)
  keep-is_new_append out x [] = refl
  keep-is_new_append out x (y ∷ ys) =
      ground (arith, is_new-append out x y, keep-is_new_append out x ys)

  append_new-firsts :
      (out xs : List T) → append_new key out xs ≡ out ++ keep (is_new out) (firsts xs)
  unfolding append_new firsts
  append_new-firsts out [] = sym (append-nil out)
  append_new-firsts out (x ∷ xs) = elim (Bool-cases (any (has_key key (key x)) out)) [
    | inl seen ↦
        rw seen
          (append_new-firsts out xs ∙ ap (out ++◌) (sym (is_new_other out x (firsts xs) seen)))
    | inr fresh ↦ rw fresh (
        append_new-firsts (out ++ x ∷ []) xs
        ∙ append_assoc out (x ∷ []) _
        ∙ ap (λ r. out ++ x ∷ r) (keep-is_new_append out x (firsts xs)))
  ]

  keep-all : (xs : List T) → keep (is_new []) xs ≡ xs
  keep-all [] = refl
  keep-all (x ∷ xs) = ap (◌∷◌ x) (keep-all xs)

  append_new_again :
      (out xs ys : List T)
      → append_new key (append_new key out xs) ys ≡ append_new key out (xs ++ ys)
  unfolding append_new
  append_new_again out [] ys = refl
  append_new_again out (x ∷ xs) ys =
      append_new_again (if any (has_key key (key x)) out then out else out ++ x ∷ []) xs ys

  local_items-own :
      (local : Option (Text → List T → List T)) (s : SuggestInput T)
      → local_items key local s ≡ own_items local (trim s.value) s.items
  local_items-own none s = refl
  local_items-own (some f) s = refl

  -- The panel shows the items that the page makes of the trimmed text and of those of the answer, and
  -- then those of the answer, in their order, less those whose key an item before has. So each key is
  -- shown once, by the first item that has it.
  pub merged_items-first :
      (local : Option (Text → List T → List T)) (s : SuggestInput T)
      → let all = own_items local (trim s.value) s.items ++ s.items in
        (merged_items key local s ≡ firsts all)
        × Distinct (merged_items key local s)
        × ((k : Text) → find (has_key key k) (merged_items key local s) ≡ find (has_key key k) all)
  unfolding merged_items
  merged_items-first local s =
      let ls = local_items key local s in
      rw⁻¹ (local_items-own local s) (
        append_new_again [] ls s.items
            ∙ append_new-firsts [] (ls ++ s.items)
            ∙ keep-all (firsts (ls ++ s.items)),
        append_new-Distinct _ s.items (append_new-Distinct [] ls tt),
        λ k.
            find-append_new k (append_new key [] ls) s.items
            ∙ find-append k (append_new key [] ls) s.items
            ∙ ap (λ o. first_of o (find (has_key key k) s.items)) (find-append_new k [] ls)
            ∙ sym (find-append k ls s.items),
      )
