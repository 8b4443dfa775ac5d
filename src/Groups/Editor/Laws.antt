-- ===== src/Groups/Editor/Laws.antt =====
-- When a channel group's form has something to save, and what a saving leaves.
use revlm.Base.{
  ◌≡◌, refl, ap, ◌∙◌, Bool, true, false, not, ◌&&◌, Option, none, some, List, [], if◌then◌else◌,
  Text, codes, trim, text_eq_refl, is_empty, is_some, Bool-cases, ◌⊎◌, inl, inr,
}
use revlm.Api.{ApiResponse, Reply, answered}
use revlm.Api.ChannelGroups.{
  AdminChannelGroup, AdminChannelGroupDetail, AdminChannelGroupPointer, update_admin_channel_group,
}
use revlm.Groups.Editor.{
  Editor, Normalized, Details, both, fields_of, normalized_value, take_detail, pointer_of,
  refresh_detail, is_dirty, save_blocked_reason,
}
use revlm.Groups.Editor.Handlers.{
  begin, request_for, save_request, handle_save, set_saving, after_update, on_reorder,
}

request_blocked : (o : Option AdminChannelGroup) (v : Normalized) → request_for o false v ≡ none
request_blocked none v = refl
request_blocked (some g) v = refl

reason_lem :
    (chosen unnamed dirty : Bool)
    → is_empty (
        if not chosen
        then codes "未选择渠道组"
        else if unnamed
        then codes "名称不能为空"
        else if not dirty
        then codes "没有未保存改动"
        else [])
      ≡ (chosen && not unnamed && dirty)
reason_lem true true true = refl
reason_lem true true false = refl
reason_lem true false true = refl
reason_lem true false false = refl
reason_lem false unnamed dirty = refl

and_false : (a b : Bool) → (a && b && false) ≡ false
and_false true true = refl
and_false true false = refl
and_false false b = refl

module _ (print : Normalized → Text) (positive truthy : Text → Bool) where
  take_detail-clean :
      (d : Option AdminChannelGroupDetail) (p : Option AdminChannelGroupPointer) (s : Editor)
      → is_dirty print positive truthy (take_detail print positive truthy true d p s) ≡ false
  unfolding is_dirty
  take_detail-clean none p s = refl
  take_detail-clean (some d) p s = rw (text_eq_refl (print (normalized_value positive _))) refl

  loaded_clean :
      (d : ApiResponse AdminChannelGroupDetail) (p : ApiResponse AdminChannelGroupPointer)
      (s : Editor)
      → d.success ≡ true
      → is_dirty print positive truthy (refresh_detail print positive truthy true (both d p) s)
        ≡ false
  unfolding refresh_detail
  loaded_clean d p s h = simp h (take_detail-clean d.body (pointer_of p) s)

  -- Nothing blocks a saving exactly if a group is chosen, the name is not blank, and it is dirty.
  abbrev free : Editor → Bool
  free s =
      is_some s.selected_group
      && not (is_empty (trim s.draft.name))
      && is_dirty print positive truthy s

  request_free :
      (s : Editor)
      → save_request print positive truthy s
        ≡ request_for s.selected_group (free s) (normalized_value positive s.draft)
  unfolding save_request save_blocked_reason normalized_value
  request_free s =
      ap (λ b. request_for s.selected_group b (normalized_value positive s.draft))
        (reason_lem (is_some s.selected_group) (is_empty (trim s.draft.name))
          (is_dirty print positive truthy s))

  blocked_of_clean :
      (s : Editor)
      → is_dirty print positive truthy s ≡ false
      → save_request print positive truthy s ≡ none
  blocked_of_clean s h =
      request_free s
      ∙ rw (h, and_false (is_some s.selected_group) (not (is_empty (trim s.draft.name))))
          (request_blocked s.selected_group _)

  -- A group that has just been loaded with its form has nothing to save, and no saving is sent.
  pub save_request-refresh_detail :
      (d : ApiResponse AdminChannelGroupDetail) (p : ApiResponse AdminChannelGroupPointer)
      (s : Editor)
      → d.success ≡ true
      → (is_dirty print positive truthy (refresh_detail print positive truthy true (both d p) s)
          ≡ false)
        × (save_request print positive truthy
              (refresh_detail print positive truthy true (both d p) s)
            ≡ none)
  save_request-refresh_detail d p s h =
      let clean = loaded_clean d p s h in (clean, blocked_of_clean _ clean)

  -- A saving of a chosen group sends its update with the normalised draft exactly if the name is not
  -- blank and the form is dirty, and else nothing.
  pub save_request_lem :
      (s : Editor) (g : AdminChannelGroup)
      → s.selected_group ≡ some g
      → save_request print positive truthy s ≡ (
          if not (is_empty (trim s.draft.name)) && is_dirty print positive truthy s
          then some
              (update_admin_channel_group g.id (fields_of (normalized_value positive s.draft)))
          else none)
  save_request_lem s g e = request_free s ∙ rw e refl

  -- The group and the form after an update that the server accepted.
  saved :
      {A : Type 0} (s : Editor) (r : ApiResponse A) (list : Reply (List AdminChannelGroup))
      (d : Details)
      → is_some (save_request print positive truthy s) ≡ true
      → r.success ≡ true
      → handle_save print positive truthy (answered r) list d s
        ≡ set_saving false (
            after_update print positive truthy
              (normalized_value positive s.draft)
              list
              d
              r
              (begin s))
  unfolding handle_save
  saved s r list d sent ok = rw (sent, ok) refl

  dirty-saving :
      (s : Editor)
      → is_dirty print positive truthy (set_saving false s) ≡ is_dirty print positive truthy s
  unfolding is_dirty
  dirty-saving s = refl

  -- A saving that is sent, accepted, and followed by a detail that loads leaves a form that is not
  -- dirty, and the saving flag down.
  pub handle_save-clean :
      {A : Type 0} (s : Editor) (r : ApiResponse A) (list : Reply (List AdminChannelGroup))
      (d : ApiResponse AdminChannelGroupDetail) (p : ApiResponse AdminChannelGroupPointer)
      → is_some (save_request print positive truthy s) ≡ true
      → r.success ≡ true
      → d.success ≡ true
      → (is_dirty print positive truthy
            (handle_save print positive truthy (answered r) list (both d p) s)
          ≡ false)
        × ((handle_save print positive truthy (answered r) list (both d p) s).saving ≡ false)
  handle_save-clean s r list d p sent ok done =
      let end = saved s r list (both d p) sent ok in
      (
        ap (is_dirty print positive truthy) end ∙ dirty-saving _ ∙ loaded_clean d p _ done,
        ap (λ (t : Editor). t.saving) end,
      )

  -- A change of the members leaves the draft and what it was loaded from as they are, where the server
  -- refuses it as well as where it accepts it and the detail loads.
  pub on_reorder-draft :
      {A : Type 0} (s : Editor) (r : ApiResponse A) (d : ApiResponse AdminChannelGroupDetail)
      (p : ApiResponse AdminChannelGroupPointer)
      → (r.success ≡ false) ⊎ (d.success ≡ true)
      → ((on_reorder print positive truthy (answered r) (both d p) s).draft ≡ s.draft)
        × ((on_reorder print positive truthy (answered r) (both d p) s).saved_snapshot
            ≡ s.saved_snapshot)
  unfolding on_reorder refresh_detail
  on_reorder-draft s r d p (inl refused) = simp refused (refl, refl)
  on_reorder-draft s r d p (inr done) = elim (Bool-cases r.success) [
    | inl accepted ↦ simp (accepted, done) (refl, refl)
    | inr refused ↦ simp refused (refl, refl)
  ]
