-- ===== src/Channels/Page/SettingsLaws.antt =====
-- What the dialog of a channel's settings sends and leaves.
use revlm.Base.{
  ℕ, ◌≡◌, refl, ap, ◌∙◌, sym, subst, false, Option, none, some, List, [], ◌∷◌, arith, if◌then◌else◌,
  find, ==_iff, ◌≢◌, or_else, Text, codes, is_empty, trim, parse_int-int_text,
}
use revlm.Api.{Reply, Outcome, loaded, failed, settle}
use revlm.Api.Channels.{Channel, UpdateChannelRequest}
use revlm.Channels.Page.{ChannelItem, Page, apply_channel_patch, patched, patch_if, patch_item}
use revlm.Channels.Page.Settings.{
  has_id, open_channel_settings_modal, CommonTab, update_of, patch_of, form_error, Saved,
  save_common_settings,
}
use revlm.Channels.Page.Patches.{find-patch_item}

abbrev save_failed : Text
save_failed = codes "保存失败"

-- A channel with the values of an update.
pub record Carries (req : UpdateChannelRequest) (c : Channel) : Type 0 where
  pub name : req.name ≡ some c.name
  pub status : req.status ≡ some c.status
  pub base_url : req.base_url ≡ c.base_url
  pub key : req.key ≡ c.api_key
  pub groups : req.groups ≡ some c.groups
  pub priority : req.priority ≡ some c.priority

patched-Carries :
    (id : ℕ) (p : Page) (c : Channel) → Carries (update_of id p) (patched (patch_of p) c)
unfolding update_of patch_of patched
patched-Carries id p c = record {
  name = refl;
  status = refl;
  base_url = refl;
  key = refl;
  groups = refl;
  priority = refl;
}

patch_if-Carries :
    (id : ℕ) (p : Page) (c : Channel)
    → c.id ≡ id
    → Carries (update_of id p) (patch_if id (patch_of p) c)
patch_if-Carries id p c e =
    let same : patch_if id (patch_of p) c ≡ patched (patch_of p) c =
      ap (λ b. if b then patched (patch_of p) c else c) ((==_iff c.id id).1 e) in
    subst (Carries (update_of id p)) (sym same) (patched-Carries id p c)

has_id_of_find :
    (id : ℕ) (xs : List ChannelItem) (x : ChannelItem)
    → find (has_id id) xs ≡ some x
    → x.channel.id ≡ id
has_id_of_find id [] x h = cc
has_id_of_find id (y ∷ ys) x h = ground (arith, has_id_of_find id ys x)

-- A right form of a channel in the table: a saving that the server accepts sends it, shows no error, and
-- the table then has what was sent.
pub save_common_settings-Carries :
    (id : ℕ) (reply : Reply ℕ) (p : Page) (t : CommonTab) (d : Option ℕ) (x : ChannelItem)
    → form_error p ≡ none
    → settle save_failed reply ≡ loaded d
    → find (has_id id) p.channels ≡ some x
    → let r = save_common_settings id reply p t in
      (r.sent ≡ some (update_of id p))
      × (r.tab.err ≡ [])
      × (r.tab.saving ≡ false)
      × ((y : ChannelItem) × (find (has_id id) r.page.channels ≡ some y)
          × Carries (update_of id p) y.channel)
unfolding save_common_settings
save_common_settings-Carries id reply p t d x ok accepted e =
    rw (ok, accepted)
      (
        refl,
        refl,
        refl,
        (
          patch_item id (patch_of p) x,
          unfold apply_channel_patch in find-patch_item id id (patch_of p) p.channels x e,
          patch_if-Carries id p x.channel (has_id_of_find id p.channels x e),
        ),
      )

-- A saving that changes nothing but the form's message, with what it sends.
abbrev pub Stops : Page → Option UpdateChannelRequest → Text → Saved → Type 0
Stops p sent wrong r = (r.sent ≡ sent) × (r.page ≡ p) × (r.tab.err ≡ wrong) × (r.tab.notice ≡ [])

-- The savings that do not go through: one with a blank name, one with a blank address, and one that
-- the server refuses.
pub record Refuses (id : ℕ) (o : Outcome ℕ) (p : Page) (r : Saved) : Type 0 where
  pub no_name : trim p.edit_name ≡ [] → Stops p none (codes "名称不能为空") r
  pub no_address :
      trim p.edit_name ≢ [] → trim p.edit_base_url ≡ [] → Stops p none (codes "接口基础地址不能为空") r
  pub refused :
      (message : Text)
      → trim p.edit_name ≢ []
      → trim p.edit_base_url ≢ []
      → o ≡ failed message
      → Stops p (some (update_of id p)) message r × (r.tab.saving ≡ false)

blank-false : (t : Text) → t ≢ [] → is_empty t ≡ false
blank-false [] h = absurd (h refl)
blank-false (c ∷ t) h = refl

-- A form with a blank name sends nothing and says so; one with a name and a blank address sends
-- nothing and says so; one with both that the server refuses has been sent, ends the saving and shows
-- the server's message. In the three cases the page stays as it is, and there is no notice.
pub save_common_settings-Refuses :
    (id : ℕ) (reply : Reply ℕ) (p : Page) (t : CommonTab)
    → Refuses id (settle save_failed reply) p (save_common_settings id reply p t)
unfolding save_common_settings form_error
save_common_settings-Refuses id reply p t = record {
  no_name = λ blank. rw (ap is_empty blank) (refl, refl, refl, refl);
  no_address = λ named blank. rw (blank-false _ named, ap is_empty blank) (refl, refl, refl, refl);
  refused = λ message named given e.
      rw (blank-false _ named, blank-false _ given, e) ((refl, refl, refl, refl), refl);
}

-- A channel as the form can hold it.
pub record IsTidy (c : Channel) (url key : Text) : Type 0 where
  pub name : trim c.name ≡ c.name
  pub named : is_empty c.name ≡ false
  pub groups : trim c.groups ≡ c.groups
  pub base_url : c.base_url ≡ some url
  pub url_trimmed : trim url ≡ url
  pub url_given : is_empty url ≡ false
  pub api_key : c.api_key ≡ some key

-- Saving a channel that has just been opened, whose name, groups and address are trimmed, name and
-- address not empty, and whose address and key are there: it sends the channel's own values, and its
-- patch leaves the channel.
pub update_of-open_channel_settings_modal :
    (c : Channel) (url key : Text) (p : Page)
    → IsTidy c url key
    → let q = open_channel_settings_modal c p in
      (form_error q ≡ none) × Carries (update_of c.id q) c × (patched (patch_of q) c ≡ c)
unfolding open_channel_settings_modal form_error update_of patch_of patched
update_of-open_channel_settings_modal c url key p h =
    let url_sent : some (trim (or_else c.base_url [])) ≡ c.base_url =
      ap (λ o. some (trim (or_else o []))) h.base_url ∙ ap some h.url_trimmed ∙ sym h.base_url in
    let key_sent : some (or_else c.api_key []) ≡ c.api_key =
      ap (λ o. some (or_else o [])) h.api_key ∙ sym h.api_key in
    let name_given : is_empty (trim c.name) ≡ false = ap is_empty h.name ∙ h.named in
    let url_given : is_empty (trim (or_else c.base_url [])) ≡ false =
      ap (λ o. is_empty (trim (or_else o []))) h.base_url
      ∙ ap is_empty h.url_trimmed
      ∙ h.url_given in
    (
      rw (name_given, url_given) refl,
      record {
        name = ap some h.name;
        status = refl;
        base_url = url_sent;
        key = key_sent;
        groups = ap some h.groups;
        priority = ap some (parse_int-int_text c.priority);
      },
      λ i. record c {
        name = h.name i;
        groups = h.groups i;
        priority = parse_int-int_text c.priority i;
        base_url = url_sent i;
        api_key = key_sent i;
      },
    )
