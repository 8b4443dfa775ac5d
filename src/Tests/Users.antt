-- ===== src/Tests/Users.antt =====
-- The page of the users and the form of a balance at concrete inputs.
use revlm.Base.{ℕ, ◌≡◌, refl, true, false, none, some, List, [], ◌∷◌, codes, trim}
use revlm.Api.{ApiResponse, answered, thrown, settle}
use revlm.Api.Users.{AdminUser, update_admin_user, add_admin_user_balance}
use revlm.Format.Money.Amounts.{Amount, amount_text}
use revlm.Users.Page.{
  root, initial, set_editing, delete_request, edit_request, on_delete, on_edit, on_form,
  create_texts,
}
use revlm.Users.Page.Laws.{Edit, edits, email, status, role, edit_request-own, notice_of_accepted}
use revlm.Users.Forms.{text, Form, submitted}
use revlm.Users.Templates.{add_admin_user_balance_template, required_decimal}
use revlm.Users.Templates.Laws.{IsPrice, submitted-IsPrice}

abbrev ann : AdminUser
ann = record {
  id = 1;
  email = codes "ann@example.org";
  username = codes "ann";
  role = codes "root";
  status = 1;
  balance_usd = codes "0";
}

abbrev tries : List Edit
tries = status 0 ∷ role root ∷ email (codes "a@example.org") ∷ []

edit_request-own_example :
    (edit_request (edits 1 tries (set_editing (some ann) initial))
      ≡ some (
          update_admin_user 1 (record {
            email = some (trim (edits 1 tries (set_editing (some ann) initial)).edit_email);
            status = some 1;
            role = some (codes "root");
          })))
    × (delete_request 1 true ann ≡ none)
edit_request-own_example = edit_request-own ann tries true initial

abbrev accepted : ApiResponse ℕ
accepted = record { success = true; message = none; body = none }

notice_of_accepted_example :
    ((on_delete 2 (answered accepted) thrown initial).notice ≡ [])
    × ((on_edit (answered accepted) thrown initial).notice ≡ [])
    × ((on_form create_texts (settle (codes "操作失败") (answered accepted)) thrown initial).notice
        ≡ [])
notice_of_accepted_example = notice_of_accepted 2 create_texts accepted thrown initial refl

abbrev balance_form : Form
balance_form = record { values = (codes "amount_usd", text (codes " 12.50 ")) ∷ []; saving = false }

submitted-IsPrice_example :
    (a : Amount) × IsPrice a
    × (add_admin_user_balance 2 (codes "12.50") ≡ add_admin_user_balance 2 (amount_text a))
unfolding submitted add_admin_user_balance_template trim required_decimal
submitted-IsPrice_example =
    submitted-IsPrice 2 balance_form (add_admin_user_balance 2 (codes "12.50")) refl
