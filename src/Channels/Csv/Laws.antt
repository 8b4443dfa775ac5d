-- ===== src/Channels/Csv/Laws.antt =====
-- What the lists of group names hold, and what a tick box does to them.
use revlm.Base.{
  append-ne-nil, ◌≡◌, refl, sym, ap, ◌∙◌, ◌≢◌, inl, inr, Bool, true, false, List, [], ◌∷◌, ◌++◌,
  append-nil, append_assoc, arith, if◌then◌else◌, Bool-cases, All, All-imp, Text, text_eq, is_empty,
  trim_end, trim, split, join, Lacks, IsTrimmed, trim_idem, All-trim, trimmed_first, trimmed_end,
  IsTrimmed-append, trim_end-append,
}
use revlm.Channels.Csv.{
  mem, set_add, set_delete, add_parts, parse_trimmed, parse_groups_csv, toggle_groups_csv,
}
use revlm.Channels.Csv.Sets.{
  Distinct, mem-append, set_add-Distinct, set_delete-Distinct, mem-set_add, mem-set_delete,
  All-set_add, All-set_delete, text_eq_sym,
}
use revlm.Channels.Csv.Splits.{split-join, All-split}

-- A name that a list can hold.
pub record IsGroup (name : Text) : Type 0 where
  pub some_text : name ≢ []
  pub trimmed : IsTrimmed name
  pub no_comma : Lacks b',' name

pub record IsGroups (names : List Text) : Type 0 where
  pub each : All IsGroup names
  pub distinct : Distinct names

trim-IsGroup : (part : Text) → Lacks b',' part → is_empty (trim part) ≡ false → IsGroup (trim part)
trim-IsGroup part h some_text = record {
  some_text = λ e. (cc (ap is_empty e));
  trimmed = trim_idem part;
  no_comma = All-trim (λ c. c ≢ b',') part h;
}

set_add-IsGroups : (v : Text) (xs : List Text) → IsGroup v → IsGroups xs → IsGroups (set_add v xs)
set_add-IsGroups v xs p h = record {
  each = All-set_add IsGroup v xs p h.each;
  distinct = set_add-Distinct v xs h.distinct;
}

set_delete-IsGroups : (v : Text) (xs : List Text) → IsGroups xs → IsGroups (set_delete v xs)
set_delete-IsGroups v xs h = record {
  each = All-set_delete IsGroup v xs h.each;
  distinct = set_delete-Distinct v xs h.distinct;
}

add_parts-IsGroups :
    (uniq parts : List Text)
    → IsGroups uniq
    → All (Lacks b',') parts
    → IsGroups (add_parts uniq parts)
unfolding add_parts
add_parts-IsGroups uniq [] h k = h
add_parts-IsGroups uniq (part ∷ parts) h (p, k) = elim (Bool-cases (is_empty (trim part))) [
  | inl nothing ↦ rw nothing (add_parts-IsGroups uniq parts h k)
  | inr some_text ↦ rw some_text (
      add_parts-IsGroups (set_add (trim part) uniq) parts
        (set_add-IsGroups (trim part) uniq (trim-IsGroup part p some_text) h) k)
]

parse_trimmed-IsGroups : (s : Text) → IsGroups (parse_trimmed s)
parse_trimmed-IsGroups [] = record { each = tt; distinct = tt }
parse_trimmed-IsGroups (c ∷ s) =
    add_parts-IsGroups [] (split (c ∷ s) b',') (record { each = tt; distinct = tt })
      (All-split b',' (c ∷ s))

-- Whatever the text, the names that are read from it are not empty, are trimmed, hold no comma, and
-- none is there twice.
pub parse_groups_csv-IsGroups : (raw : Text) → IsGroups (parse_groups_csv raw)
unfolding parse_groups_csv
parse_groups_csv-IsGroups raw = parse_trimmed-IsGroups (trim raw)

Distinct-head :
    (xs : List Text) (v : Text) (ys : List Text) → Distinct (xs ++ v ∷ ys) → mem v xs ≡ false
Distinct-head [] v ys h = refl
Distinct-head (x ∷ xs) v ys (p, h) =
    ground (arith, Distinct-head xs v ys h, mem-append x xs (v ∷ ys), text_eq_sym v x)

add_parts_of_IsGroups :
    (uniq parts : List Text)
    → All IsGroup parts
    → Distinct (uniq ++ parts)
    → add_parts uniq parts ≡ uniq ++ parts
unfolding add_parts
add_parts_of_IsGroups uniq [] h d = sym (append-nil uniq)
add_parts_of_IsGroups uniq ([] ∷ parts) (p, h) d = absurd (p.some_text refl)
add_parts_of_IsGroups uniq ((c ∷ v) ∷ parts) (p, h) d =
    let fresh = Distinct-head uniq (c ∷ v) parts d in
    let regroup = append_assoc uniq ((c ∷ v) ∷ []) parts in
    rw (p.trimmed, fresh)
      (add_parts_of_IsGroups (uniq ++ (c ∷ v) ∷ []) parts h (rw regroup d) ∙ regroup)

-- The end of a join of names is the end of a name.
join-trim_end :
    (p : Text) (ps : List Text)
    → All IsGroup (p ∷ ps)
    → (join (p ∷ ps) b',' ≢ []) × (trim_end (join (p ∷ ps) b',') ≡ join (p ∷ ps) b',')
join-trim_end [] [] (g, h) = absurd (g.some_text refl)
join-trim_end (c ∷ p) [] (g, h) = (λ e. cc, trimmed_end c p g.trimmed)
join-trim_end p (q ∷ ps) (g, h) =
    let (some_part, kept) = join-trim_end q ps h in
    let behind = trim_end-append (b',' ∷ []) (join (q ∷ ps) b',') some_part kept in
    (
      append-ne-nil p (b',' ∷ join (q ∷ ps) b',') (λ e. cc),
      trim_end-append p (b',' ∷ join (q ∷ ps) b',') (λ e. cc) behind,
    )

join-IsTrimmed : (p : Text) (ps : List Text) → All IsGroup (p ∷ ps) → IsTrimmed (join (p ∷ ps) b',')
join-IsTrimmed [] ps (g, h) = absurd (g.some_text refl)
join-IsTrimmed (c ∷ p) [] (g, h) = g.trimmed
join-IsTrimmed (c ∷ p) (q ∷ ps) (g, h) =
    let (some_part, kept) = join-trim_end q ps h in
    IsTrimmed-append c p (b',' ∷ join (q ∷ ps) b',') (trimmed_first c p g.trimmed) (λ e. cc)
      (trim_end-append (b',' ∷ []) (join (q ∷ ps) b',') some_part kept)

parse_trimmed_of_ne : (s : Text) → s ≢ [] → parse_trimmed s ≡ add_parts [] (split s b',')
parse_trimmed_of_ne [] h = absurd (h refl)
parse_trimmed_of_ne (c ∷ s) h = refl

no_commas : (xs : List Text) → All IsGroup xs → All (Lacks b',') xs
no_commas xs h = All-imp (λ x g. g.no_comma) xs h

-- A list of distinct names, each not empty, trimmed and without a comma, is read back from the names
-- joined with commas.
pub parse_groups_csv-join :
    (names : List Text) → IsGroups names → parse_groups_csv (join names b',') ≡ names
unfolding parse_groups_csv
parse_groups_csv-join [] h = unfold trim in refl
parse_groups_csv-join (p ∷ ps) h = rw (join-IsTrimmed p ps h.each) (
    parse_trimmed_of_ne (join (p ∷ ps) b',') (join-trim_end p ps h.each).0
    ∙ ap (add_parts []) (split-join b',' p ps (no_commas (p ∷ ps) h.each))
    ∙ add_parts_of_IsGroups [] (p ∷ ps) h.each h.distinct)

module _ (raw name : Text) where
  toggled : Bool → List Text
  toggled checked =
      if checked
      then set_add name (parse_groups_csv raw)
      else set_delete name (parse_groups_csv raw)

  toggled-IsGroups : (checked : Bool) → IsGroup name → IsGroups (toggled checked)
  unfolding toggled
  toggled-IsGroups true g = set_add-IsGroups name _ g (parse_groups_csv-IsGroups raw)
  toggled-IsGroups false g = set_delete-IsGroups name _ (parse_groups_csv-IsGroups raw)

  parse-toggle :
      (checked : Bool)
      → IsGroup name
      → parse_groups_csv (toggle_groups_csv raw name checked) ≡ toggled checked
  unfolding toggle_groups_csv toggled
  parse-toggle checked g = parse_groups_csv-join _ (toggled-IsGroups checked g)

  mem-toggled :
      (checked : Bool) (other : Text)
      → mem other (toggled checked)
        ≡ (if text_eq name other then checked else mem other (parse_groups_csv raw))
  unfolding toggled
  mem-toggled true other = mem-set_add name other (parse_groups_csv raw) ∙ ground arith
  mem-toggled false other = mem-set_delete name other (parse_groups_csv raw) ∙ ground arith

  -- For a name that is not empty, trimmed and without a comma: after its tick box was set or cleared,
  -- the text holds that name exactly if the box is set, and every other name exactly if it held it
  -- before.
  pub mem-toggle_groups_csv :
      (other : Text) (checked : Bool)
      → IsGroup name
      → mem other (parse_groups_csv (toggle_groups_csv raw name checked))
        ≡ (if text_eq name other then checked else mem other (parse_groups_csv raw))
  mem-toggle_groups_csv other checked g =
      ap (mem other) (parse-toggle checked g) ∙ mem-toggled checked other
