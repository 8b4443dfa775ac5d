-- ===== src/Channels/Page/Sections.antt =====
-- The two sections of the table of channels, and the row that parts them.
use revlm.Base.{
  ℕ, ◌≡◌, refl, ◌∙◌, Bool, true, false, not, Option, none, some, List, [], ◌∷◌, ◌++◌, arith, inl,
  inr, Bool-cases, Option-cases, All-right, keep, keep-append, keep-All, keep_of_All, keep_of_none,
  find_index, next_index, take, drop, All, All-imp, append-nil, codes,
}
use revlm.Api.{Reply, Outcome, loaded, failed, settle}
use revlm.Channels.Page.{
  ChannelItem, ChannelsPageResponse, Page, is_enabled, is_disabled, first_disabled_index,
  normalize_channel_sections, RefreshParams, refresh, refreshed, channels_of,
}

module _ {A : Type 0} (p : A → Bool) where
  -- The test holds of all behind the place, and of none in front of it.
  abbrev pub PartedAt : Option ℕ → List A → Type 0
  PartedAt none xs = All (λ x. p x ≡ false) xs
  PartedAt (some i) xs = All (λ x. p x ≡ false) (take i xs) × All (λ x. p x ≡ true) (drop i xs)

  PartedAt-all : (ys : List A) → All (λ x. p x ≡ true) ys → PartedAt (find_index p ys) ys
  PartedAt-all [] h = tt
  PartedAt-all (y ∷ ys) h = rw h.0 (tt, h)

  PartedAt-next :
      (x : A) (o : Option ℕ) (xs : List A)
      → p x ≡ false
      → PartedAt o xs
      → PartedAt (next_index o) (x ∷ xs)
  PartedAt-next x none xs e h = (e, h)
  PartedAt-next x (some i) xs e h = ((e, h.0), h.1)

  PartedAt-append :
      (xs ys : List A)
      → All (λ x. p x ≡ false) xs
      → All (λ x. p x ≡ true) ys
      → PartedAt (find_index p (xs ++ ys)) (xs ++ ys)
  PartedAt-append [] ys h k = PartedAt-all ys k
  PartedAt-append (x ∷ xs) ys h k =
      rw h.0 (PartedAt-next x _ (xs ++ ys) h.0 (PartedAt-append xs ys h.1 k))

true-false : (b : Bool) → b ≡ true → b ≡ false → ⊥
true-false b h k = cc

module _ {A : Type 0} (p : A → Bool) where
  -- One that fails the test behind one that meets it: the two are not parted.
  pub not_parted :
      (before after : List A) (x y : A)
      → p x ≡ true
      → p y ≡ false
      → ¬ PartedAt p (find_index p (before ++ x ∷ y ∷ after)) (before ++ x ∷ y ∷ after)
  not_parted [] after x y e f h = true-false (p y) ((rw e at h).1.1.0) f
  not_parted (b ∷ before) after x y e f h =
      let rest = before ++ x ∷ y ∷ after in
      elim (Bool-cases (p b)) [
        | inl here ↦ true-false (p y) (All-right _ before (x ∷ y ∷ after) (rw here at h).1.1).1.0 f
        | inr there ↦ elim (Option-cases (find_index p rest)) [
          | inl nowhere ↦
              true-false (p x) e (All-right _ before (x ∷ y ∷ after) (rw (there, nowhere) at h).1).0
          | inr (i, at_i) ↦
              not_parted before after x y e f
                (rw at_i ((rw (there, at_i) at h).0.1, (rw (there, at_i) at h).1))
        ]
      ]

-- In front of the row that parts the sections all channels are enabled, behind it all are disabled.
abbrev pub IsParted : List ChannelItem → Type 0
IsParted xs = PartedAt is_disabled (first_disabled_index xs) xs

-- What the table makes of the list of an answer.
pub record Sections (list table : List ChannelItem) : Type 0 where
  pub parted : IsParted table
  pub on_kept : keep is_enabled table ≡ keep is_enabled list
  pub off_kept : keep is_disabled table ≡ keep is_disabled list

not_of_true : (b : Bool) → b ≡ true → not b ≡ false
not_of_true b h = ground arith

of_not-true : (b : Bool) → not b ≡ true → b ≡ false
of_not-true b h = ground arith

normalize-Sections : (list : List ChannelItem) → Sections list (normalize_channel_sections list)
unfolding normalize_channel_sections first_disabled_index
normalize-Sections list =
    let on = keep is_enabled list in
    let off = keep is_disabled list in
    let all_on : All (λ x. is_enabled x ≡ true) on = keep-All is_enabled list in
    let all_off : All (λ x. is_disabled x ≡ true) off = keep-All is_disabled list in
    let not_off : All (λ x. is_disabled x ≡ false) on = All-imp (λ x. not_of_true _) on all_on in
    let not_on : All (λ x. is_enabled x ≡ false) off = All-imp (λ x. of_not-true _) off all_off in
    record {
      parted = PartedAt-append is_disabled on off not_off all_off;
      on_kept =
          keep-append is_enabled on off
          ∙ rw (keep_of_All is_enabled on all_on, keep_of_none is_enabled off not_on)
              (append-nil on);
      off_kept =
          keep-append is_disabled on off
          ∙ rw (keep_of_none is_disabled on not_off, keep_of_All is_disabled off all_off) refl;
    }

-- What a reload with this outcome leaves and returns.
abbrev pub Reloads : Outcome ChannelsPageResponse → Page → Page × List ChannelItem → Type 0
Reloads (loaded d) p r = Sections (channels_of d) r.0.channels × (r.1 ≡ r.0.channels)
Reloads (failed message) p r = (r.0.channels ≡ p.channels) × (r.1 ≡ [])

-- Whatever the server answers: a reload that succeeds shows its channels, each section in the order of
-- the answer and parted from the other, and returns what it shows; one that fails leaves the table. It
-- is over then.
pub refresh-Reloads :
    (params : RefreshParams) (reply : Reply ChannelsPageResponse) (p : Page)
    → Reloads (settle (codes "加载渠道失败") reply) p (refresh params reply p)
      × ((refresh params reply p).0.loading ≡ false)
unfolding refresh
refresh-Reloads params reply p = by_outcome (settle (codes "加载渠道失败") reply)
  where
    shown :
        (d : Option ChannelsPageResponse)
        → let table = normalize_channel_sections (channels_of d) in
          Sections (channels_of d) table × (table ≡ table)
    shown d = (normalize-Sections (channels_of d), refl)

    by_outcome :
        (o : Outcome ChannelsPageResponse)
        → Reloads o p (refreshed params o (record p { loading = true }))
          × ((refreshed params o (record p { loading = true })).0.loading ≡ false)
    by_outcome (loaded d) = (shown d, refl)
    by_outcome (failed message) = ((refl, refl), refl)
