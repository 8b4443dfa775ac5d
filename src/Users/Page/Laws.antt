-- ===== src/Users/Page/Laws.antt =====
-- What the page of the users does to the own account, and what it says of an action.
use revlm.Base.{
  ℕ, ◌≡◌, refl, sym, subst, ap, ◌∙◌, Bool, true, Option, none, some, List, [], ◌∷◌, if◌then◌else◌,
  Text, codes, trim, ==_refl,
}
use mathlib.Core.Path.{ap₂}
use revlm.Api.{ApiResponse, Reply, answered, Outcome, loaded, failed, settle, or_text}
use revlm.Api.Users.{AdminUser, update_admin_user}
use revlm.Users.Page.{
  Role, Page, refresh, refreshed, settle_users, begin_refresh, set_editing, delete_request,
  on_delete, on_edit_email, on_edit_status, on_edit_role, edits_self, is_editing, edit_request,
  request_of, on_saved, on_edit, FormTexts, on_form, start_action,
}

-- What the administrator does in the form of a user.
pub data Edit : Type 0 where
  email : Text → Edit
  status : ℕ → Edit
  role : Role → Edit

unfoldable pub edit : ℕ → Edit → Page → Page
unfolding on_edit_email on_edit_status on_edit_role
edit self_id (email e) = on_edit_email e
edit self_id (status s) = on_edit_status self_id s
edit self_id (role r) = on_edit_role self_id r

abbrev pub edits : ℕ → List Edit → Page → Page
edits self_id [] p = p
edits self_id (e ∷ es) p = edits self_id es (edit self_id e p)

record KeepsSelf (u : AdminUser) (p : Page) : Type 0 where
  editing : p.editing ≡ some u
  role : p.edit_role ≡ or_text u.role (codes "user")
  status : p.edit_status ≡ u.status

edits_self-own : (u : AdminUser) (o : Option AdminUser) → o ≡ some u → edits_self u.id o ≡ true
edits_self-own u o e = ap (edits_self u.id) e ∙ ==_refl u.id

on_edit_status-own :
    (u : AdminUser) (n : ℕ) (p : Page) → p.editing ≡ some u → on_edit_status u.id n p ≡ p
unfolding on_edit_status
on_edit_status-own u n p e = rw (edits_self-own u p.editing e) refl

on_edit_role-own :
    (u : AdminUser) (r : Role) (p : Page) → p.editing ≡ some u → on_edit_role u.id r p ≡ p
unfolding on_edit_role
on_edit_role-own u r p e = rw (edits_self-own u p.editing e) refl

edit-KeepsSelf : (e : Edit) (u : AdminUser) (p : Page) → KeepsSelf u p → KeepsSelf u (edit u.id e p)
unfolding edit
edit-KeepsSelf (email t) u p h = record { editing = h.editing; role = h.role; status = h.status }
edit-KeepsSelf (status n) u p h = subst (KeepsSelf u) (sym (on_edit_status-own u n p h.editing)) h
edit-KeepsSelf (role r) u p h = subst (KeepsSelf u) (sym (on_edit_role-own u r p h.editing)) h

edits-KeepsSelf :
    (es : List Edit) (u : AdminUser) (p : Page) → KeepsSelf u p → KeepsSelf u (edits u.id es p)
edits-KeepsSelf [] u p h = h
edits-KeepsSelf (e ∷ es) u p h = edits-KeepsSelf es u (edit u.id e p) (edit-KeepsSelf e u p h)

set_editing-KeepsSelf : (u : AdminUser) (p : Page) → KeepsSelf u (set_editing (some u) p)
unfolding set_editing
set_editing-KeepsSelf u p = record { editing = refl; role = refl; status = refl }

request_of-own :
    (u : AdminUser) (q : Page)
    → KeepsSelf u q
    → edit_request q
      ≡ some (
          update_admin_user u.id (record {
            email = some (trim q.edit_email);
            status = some u.status;
            role = some (or_text u.role (codes "user"));
          }))
unfolding edit_request
request_of-own u q h =
    ap (λ o. request_of o q) h.editing
    ∙ ap₂
        (λ role status. some (
          update_admin_user u.id
            (record { email = some (trim q.edit_email); status = some status; role = some role })))
        h.role h.status

notice-refresh : (list : Reply (List AdminUser)) (p : Page) → (refresh list p).notice ≡ []
unfolding refresh
notice-refresh list p = by_outcome (settle_users list)
  where
    by_outcome : (o : Outcome (List AdminUser)) → (refreshed o (begin_refresh p)).notice ≡ []
    by_outcome (loaded d) = refl
    by_outcome (failed message) = refl

notice-on_saved :
    (message : Text) (list : Reply (List AdminUser)) (p : Page)
    → (on_saved message list p).notice ≡ []
unfolding on_saved
notice-on_saved message list p = notice-refresh list (record p { notice = message; editing = none })

-- Whatever is done in the form of the own account, it sends the role and the status that the account
-- has; and no deletion of the own account is sent.
pub edit_request-own :
    (u : AdminUser) (es : List Edit) (sure : Bool) (p : Page)
    → let q = edits u.id es (set_editing (some u) p) in
      (edit_request q
        ≡ some (
            update_admin_user u.id (record {
              email = some (trim q.edit_email);
              status = some u.status;
              role = some (or_text u.role (codes "user"));
            })))
      × (delete_request u.id sure u ≡ none)
unfolding delete_request
edit_request-own u es sure p =
    let h = edits-KeepsSelf es u (set_editing (some u) p) (set_editing-KeepsSelf u p) in
    (request_of-own u (edits u.id es (set_editing (some u) p)) h, rw (==_refl u.id) refl)

-- Every action that the server accepts ends with a reload, which takes away the notice that it has set,
-- and with it what was done is not said.
pub notice_of_accepted :
    (id : ℕ) (t : FormTexts) (r : ApiResponse ℕ) (list : Reply (List AdminUser)) (p : Page)
    → r.success ≡ true
    → ((on_delete id (answered r) list p).notice ≡ [])
      × ((on_edit (answered r) list p).notice ≡ [])
      × ((on_form t (settle (codes "操作失败") (answered r)) list p).notice ≡ [])
unfolding on_delete on_edit on_form
notice_of_accepted id t r list p e = (
  rw e (
      notice-refresh list (record (start_action p) {
        notice = codes "已删除";
        editing = if is_editing p.editing id then none else p.editing;
      })),
  rw e (notice-on_saved (codes "已保存") list (start_action p)),
  rw e (notice-on_saved t.saved list (start_action p)),
)
