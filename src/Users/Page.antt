-- ===== src/Users/Page.antt =====
-- frontend/src/pages/admin/UsersPage.tsx: the list of users, the form that edits one, and what the
-- forms of frontend/src/components/admin/ConfigForm.tsx do to the page. A handler that waits for the
-- server takes the answers as arguments and runs to its end. Closing a dialog forgets its user.
pub mod Laws
use revlm.Base.{
  ℕ, Bool, true, false, Option, none, some, List, [], ◌==◌, if◌then◌else◌, or_else, keep, length,
  Text, codes, trim,
}
use revlm.Api.{Reply, Outcome, loaded, failed, settle, or_text}
use revlm.Api.Http.{Request}
use revlm.Api.Users.{AdminUser, UpdateAdminUserRequest, update_admin_user, delete_admin_user}

pub data Role : Type 0 where
  user : Role
  root : Role

pub record Page : Type 0 where
  pub users : List AdminUser
  pub loading : Bool
  pub err : Text
  pub notice : Text
  pub editing : Option AdminUser
  pub edit_email : Text
  pub edit_role : Text
  pub edit_status : ℕ

abbrev pub no_text : Text
no_text = []

abbrev pub initial : Page
initial = record {
  users = [];
  loading = true;
  err = [];
  notice = [];
  editing = none;
  edit_email = [];
  edit_role = codes "user";
  edit_status = 1;
}

unfoldable enabled_count : Page → ℕ
enabled_count p = length (keep (λ (u : AdminUser). u.status == 1) p.users)

abbrev pub refreshed : Outcome (List AdminUser) → Page → Page
refreshed (loaded d) p = record p { users = or_else d []; loading = false }
refreshed (failed message) p = record p { users = []; err = message; loading = false }

abbrev pub begin_refresh : Page → Page
begin_refresh p = record p { err = no_text; notice = no_text; loading = true }

-- `message` is the one of the error in the first case, and the other text in the second.
abbrev pub settle_users : Reply (List AdminUser) → Outcome (List AdminUser)
settle_users (Reply.answered r) = settle (codes "加载用户失败") (Reply.answered r)
settle_users (Reply.error message) = failed message
settle_users Reply.thrown = failed (codes "加载失败")

unfoldable pub refresh : Reply (List AdminUser) → Page → Page
refresh reply p = refreshed (settle_users reply) (begin_refresh p)

-- The effect on the user whose dialog opens.
abbrev pub edit_fields : Option AdminUser → Page → Page
edit_fields none p = p
edit_fields (some u) p = record p {
  edit_email = u.email;
  edit_role = or_text u.role (codes "user");
  edit_status = u.status;
}

unfoldable pub set_editing : Option AdminUser → Page → Page
set_editing u p = edit_fields u (record p { editing = u })

abbrev pub start_action : Page → Page
start_action p = record p { err = no_text; notice = no_text }

-- The button is off for the own account, and asks before.
unfoldable pub delete_request : ℕ → Bool → AdminUser → Option Request
delete_request self_id sure u =
    if u.id == self_id then none else if sure then some (delete_admin_user u.id) else none

abbrev pub is_editing : Option AdminUser → ℕ → Bool
is_editing none id = false
is_editing (some u) id = u.id == id

abbrev pub deleted : Outcome ℕ → ℕ → Reply (List AdminUser) → Page → Page
deleted (loaded d) id list p = refresh list (record p {
  notice = codes "已删除";
  editing = if is_editing p.editing id then none else p.editing;
})
deleted (failed message) id list p = record p { err = message }

-- What follows a deletion that was sent.
unfoldable pub on_delete : ℕ → Reply ℕ → Reply (List AdminUser) → Page → Page
unfolding refresh
on_delete id reply list p = deleted (settle (codes "删除失败") reply) id list (start_action p)

unfoldable pub on_edit_email : Text → Page → Page
on_edit_email email p = record p { edit_email = email }

abbrev pub edits_self : ℕ → Option AdminUser → Bool
edits_self self_id none = false
edits_self self_id (some u) = u.id == self_id

-- The two selections are off for the own account.
unfoldable pub on_edit_status : ℕ → ℕ → Page → Page
on_edit_status self_id status p =
    if edits_self self_id p.editing then p else record p { edit_status = status }

abbrev role_text : Role → Text
role_text user = codes "user"
role_text root = codes "root"

unfoldable pub on_edit_role : ℕ → Role → Page → Page
on_edit_role self_id role p =
    if edits_self self_id p.editing then p else record p { edit_role = role_text role }

abbrev pub request_of : Option AdminUser → Page → Option Request
request_of none p = none
request_of (some u) p = some (
    update_admin_user u.id (record {
      email = some (trim p.edit_email);
      status = some p.edit_status;
      role = some p.edit_role;
    }))

-- What the form of an edited user sends.
unfoldable pub edit_request : Page → Option Request
edit_request p = request_of p.editing p

-- An action that the server accepts says so, closes its dialog and loads the list again.
unfoldable pub on_saved : Text → Reply (List AdminUser) → Page → Page
unfolding refresh
on_saved message list p = refresh list (record p { notice = message; editing = none })

abbrev pub edited : Outcome ℕ → Reply (List AdminUser) → Page → Page
edited (loaded d) list p = on_saved (codes "已保存") list p
edited (failed message) list p = record p { err = message }

unfoldable pub on_edit : Reply ℕ → Reply (List AdminUser) → Page → Page
unfolding on_saved
on_edit reply list p = edited (settle (codes "保存失败") reply) list (start_action p)

-- What the page passes to a form of the dialogs.
pub record FormTexts : Type 0 where
  pub saved : Text
  pub failed : Text

abbrev pub create_texts : FormTexts
create_texts = record { saved = codes "已创建"; failed = codes "创建失败" }

abbrev pub balance_texts : FormTexts
balance_texts = record { saved = codes "已加余额"; failed = codes "加余额失败" }

abbrev pub password_texts : FormTexts
password_texts = record { saved = codes "已重置密码"; failed = codes "重置失败" }

abbrev pub form_ended : FormTexts → Outcome ℕ → Reply (List AdminUser) → Page → Page
form_ended t (loaded d) list p = on_saved t.saved list p
form_ended t (failed message) list p = record p { err = or_text message t.failed }

-- A form of the dialogs, by the outcome of its request.
unfoldable pub on_form : FormTexts → Outcome ℕ → Reply (List AdminUser) → Page → Page
unfolding on_saved
on_form t o list p = form_ended t o list (start_action p)
