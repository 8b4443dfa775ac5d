-- ===== src/Groups/Editor/Handlers.antt =====
-- The handlers of frontend/src/pages/admin/ChannelGroupsPage.tsx. Each takes the server's answers as
-- arguments and runs to its end before another one starts.
use revlm.Base.{
  ℕ, Bool, true, false, not, ◌&&◌, Option, none, some, List, [], ◌==◌, if◌then◌else◌, or_else, Text,
  codes, text_eq, is_empty, is_some, to_text,
}
use revlm.Api.{ApiResponse, Reply, answered, or_text}
use revlm.Api.Http.{Request}
use revlm.Api.ChannelGroups.{AdminChannelGroup, update_admin_channel_group}
use revlm.Groups.Editor.{
  Editor, Normalized, Details, empty_draft, no_text, fields_of, normalized_value, refresh,
  refresh_detail, save_blocked_reason,
}

abbrev pub begin : Editor → Editor
begin s = record s { err = no_text; notice = no_text }

-- `setErr(e instanceof Error ? e.message : fallback)` for what is thrown, or what `act` makes of the
-- answer. `good` is the test of the answer.
abbrev pub attempt :
    {A : Type 0}
    → Text
    → (ApiResponse A → Bool)
    → Reply A
    → (ApiResponse A → Editor → Editor)
    → Editor
    → Editor
attempt fallback good (answered r) act s =
    if good r then act r s else record s { err = or_text (or_else r.message []) fallback }
attempt fallback good (Reply.error message) act s = record s { err = message }
attempt fallback good Reply.thrown act s = record s { err = fallback }

abbrev pub ok : {A : Type 0} → ApiResponse A → Bool
ok r = r.success

-- The modal is closed, or no group is chosen any more.
abbrev clear_selection : Editor → Editor
clear_selection s = record s {
  selected_group = none;
  detail = none;
  pointer = none;
  draft = empty_draft;
  saved_snapshot = no_text;
  add_channel_id = no_text;
}

unfoldable handle_modal_hidden : Editor → Editor
handle_modal_hidden s = record (clear_selection s) {
  selected_param = no_text;
  detail_loading = false;
}

-- `!res.success || !res.data?.id`, where the data are the identifier.
abbrev has_id : ApiResponse ℕ → Bool
has_id r = r.success && not (or_else r.body 0 == 0)

abbrev set_creating : Bool → Editor → Editor
set_creating b s = record s { creating_draft = b }

unfoldable handle_start_create : Reply ℕ → Reply (List AdminChannelGroup) → Editor → Editor
unfolding refresh
handle_start_create reply list s = set_creating false (
    attempt (codes "创建失败") has_id reply
      (λ r t. refresh list (record t { selected_param = to_text (or_else r.body 0) })) (begin s))

abbrev pub set_saving : Bool → Editor → Editor
set_saving b s = record s { saving = b }

-- `confirmed` is the answer to the question.
unfoldable handle_delete :
    {A : Type 0} → Bool → Reply A → Reply (List AdminChannelGroup) → Editor → Editor
unfolding refresh
handle_delete confirmed reply list s =
    if is_some s.selected_group && confirmed
    then set_saving false (
        attempt (codes "删除失败") ok reply
          (λ r t. refresh list (record t { notice = or_text (or_else r.message []) (codes "已删除") }))
          (begin s))
    else s

abbrev pub request_for : Option AdminChannelGroup → Bool → Normalized → Option Request
request_for none free v = none
request_for (some g) free v =
    if free then some (update_admin_channel_group g.id (fields_of v)) else none

-- The fields of the form; `parsed` is the number that the field of the multiplier holds, or 0.
unfoldable on_name : Text → Editor → Editor
on_name v s = record s { draft = record (s.draft) { name = v } }

unfoldable on_description : Text → Editor → Editor
on_description v s = record s { draft = record (s.draft) { description = v } }

unfoldable on_status : Text → Editor → Editor
on_status v s = record s { draft = record (s.draft) { status = text_eq v (codes "1") } }

unfoldable on_price_multiplier : Text → Editor → Editor
on_price_multiplier parsed s = record s { draft = record (s.draft) { price_multiplier = parsed } }

module _ (print : Normalized → Text) (positive truthy : Text → Bool) where
  -- The effect that runs when another group is chosen.
  unfoldable on_selected : ℕ → Details → Editor → Editor
  unfolding refresh_detail
  on_selected selected_id details s =
      if selected_id == 0
      then clear_selection s
      else refresh_detail print positive truthy true details s

  -- The request of a saving, where it is not blocked.
  unfoldable pub save_request : Editor → Option Request
  unfolding save_blocked_reason
  save_request s =
      request_for s.selected_group (is_empty (save_blocked_reason print positive truthy s))
        (normalized_value positive s.draft)

  -- What a saving goes on with once the update has succeeded.
  abbrev pub after_update :
      {A : Type 0}
      → Normalized
      → Reply (List AdminChannelGroup)
      → Details
      → ApiResponse A
      → Editor
      → Editor
  after_update v list details r t = refresh_detail print positive truthy true details (
      refresh list (record t {
        saved_snapshot = print v;
        notice = or_text (or_else r.message []) (codes "已保存");
      }))

  unfoldable pub handle_save :
      {A : Type 0} → Reply A → Reply (List AdminChannelGroup) → Details → Editor → Editor
  handle_save reply list details s =
      if is_some (save_request s)
      then set_saving false (
          attempt (codes "保存失败") ok reply
            (after_update (normalized_value positive s.draft) list details) (begin s))
      else s

  -- A change of the members: it is noted, and the detail is loaded again without the form.
  abbrev pub change_members :
      {A : Type 0} → Text → Text → Reply A → Details → (Editor → Editor) → Editor → Editor
  change_members fallback note reply details on_done s =
      attempt fallback ok reply
        (λ r t.
          refresh_detail print positive truthy false details (on_done (record t { notice = note })))
        (begin s)

  unfoldable on_add_channel : {A : Type 0} → ℕ → Reply A → Details → Editor → Editor
  unfolding refresh_detail
  on_add_channel channel_id reply details s =
      if channel_id == 0
      then s
      else change_members (codes "添加失败") (codes "已添加渠道") reply details
          (λ t. record t { add_channel_id = no_text }) s

  unfoldable pub on_reorder : {A : Type 0} → Reply A → Details → Editor → Editor
  unfolding refresh_detail
  on_reorder reply details s =
      change_members (codes "保存排序失败") (codes "已更新顺序") reply details (λ t. t) s

  unfoldable on_set_pointer : {A : Type 0} → ℕ → Bool → Reply A → Details → Editor → Editor
  unfolding refresh_detail
  on_set_pointer channel_id confirmed reply details s =
      if not (channel_id == 0) && confirmed
      then change_members (codes "设置失败") (codes "已设置指针") reply details (λ t. t) s
      else s

  -- A member that is no channel is refused before the server is asked.
  unfoldable on_remove_member : {A : Type 0} → ℕ → Bool → Reply A → Details → Editor → Editor
  unfolding refresh_detail
  on_remove_member channel_id confirmed reply details s =
      if not confirmed
      then s
      else if channel_id == 0
      then record (begin s) { err = codes "成员类型不合法" }
      else change_members (codes "移除失败") (codes "已移除成员") reply details (λ t. t) s

  unfoldable on_set_default :
      {A : Type 0} → Reply A → Reply (List AdminChannelGroup) → Details → Editor → Editor
  on_set_default reply list details s = set_saving false (
      attempt (codes "设置失败") ok reply
        (λ r t.
          refresh_detail print positive truthy false details (
            refresh list (record t { notice = or_text (or_else r.message []) (codes "已设置默认渠道组") })))
        (begin s))
