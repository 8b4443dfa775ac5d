-- ===== src/Channels/Page/Patches.antt =====
-- What a saved channel changes in the table and in the dialog.
use mathlib.Core.List.{map-append}
use revlm.Base.{
  ℕ, ◌≡◌, ap, ◌∙◌, subst, true, false, Option, none, some, List, [], ◌∷◌, ◌++◌, arith, find, map,
  ◌≢◌, find_index,
}
use revlm.Api.Channels.{Channel}
use revlm.Channels.Page.{
  ChannelItem, Page, is_disabled, first_disabled_index, ChannelPatch, apply_channel_patch, patched,
  patch_if, patch_item, patch_shown,
}
use revlm.Channels.Page.Settings.{has_id}
use revlm.Channels.Page.Sections.{PartedAt, IsParted, not_parted}

-- The channel in the dialog is the one that the table shows.
abbrev pub Agrees : Option Channel → List ChannelItem → Type 0
Agrees none xs = Unit
Agrees (some c) xs = (x : ChannelItem) × (find (has_id c.id) xs ≡ some x) × (x.channel ≡ c)

id-patch_if : (id : ℕ) (patch : ChannelPatch) (c : Channel) → (patch_if id patch c).id ≡ c.id
unfolding patched
id-patch_if id patch c = ground arith

pub find-patch_item :
    (id k : ℕ) (patch : ChannelPatch) (xs : List ChannelItem) (x : ChannelItem)
    → find (has_id k) xs ≡ some x
    → find (has_id k) (map (patch_item id patch) xs) ≡ some (patch_item id patch x)
find-patch_item id k patch [] x h = cc
find-patch_item id k patch (y ∷ ys) x h =
    ground (arith, id-patch_if id patch y.channel, find-patch_item id k patch ys x)

-- Where the dialog shows a channel as the table has it, it does so when a patch has been applied.
pub apply_channel_patch-Agrees :
    (id : ℕ) (patch : ChannelPatch) (p : Page)
    → Agrees p.settings_channel p.channels
    → let q = apply_channel_patch id patch p in Agrees q.settings_channel q.channels
unfolding apply_channel_patch
apply_channel_patch-Agrees id patch p h = agree p.settings_channel h
  where
    agree :
        (shown : Option Channel)
        → Agrees shown p.channels
        → Agrees (patch_shown id patch shown) (map (patch_item id patch) p.channels)
    agree none h = tt
    agree (some c) (x, e, f) = (
      patch_item id patch x,
      rw (id-patch_if id patch c) (find-patch_item id c.id patch p.channels x e),
      ap (patch_if id patch) f,
    )

patched-off :
    (patch : ChannelPatch) (x : ChannelItem)
    → patch.status ≡ some false
    → is_disabled (patch_item x.channel.id patch x) ≡ true
unfolding patched
patched-off patch x off = ground arith

patched-other :
    (patch : ChannelPatch) (x y : ChannelItem)
    → y.channel.id ≢ x.channel.id
    → y.channel.status ≡ true
    → is_disabled (patch_item x.channel.id patch y) ≡ false
patched-other patch x y other on = ground arith

-- A saved channel that is now disabled stays where it stood, in front of an enabled one: the row that
-- says that disabled channels stand below is then wrong.
pub apply_channel_patch-unparted :
    (patch : ChannelPatch) (p : Page) (before after : List ChannelItem) (x y : ChannelItem)
    → p.channels ≡ before ++ x ∷ y ∷ after
    → y.channel.status ≡ true
    → y.channel.id ≢ x.channel.id
    → patch.status ≡ some false
    → ¬ IsParted (apply_channel_patch x.channel.id patch p).channels
unfolding apply_channel_patch first_disabled_index
apply_channel_patch-unparted patch p before after x y e on other off h =
    let f = patch_item x.channel.id patch in
    not_parted is_disabled (map f before) (map f after) (f x) (f y) (patched-off patch x off)
      (patched-other patch x y other on)
      (subst (λ xs. PartedAt is_disabled (find_index is_disabled xs) xs)
        (ap (map f) e ∙ map-append f before (x ∷ y ∷ after)) h)
