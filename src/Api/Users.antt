-- ===== src/Api/Users.antt =====
-- The requests of frontend/src/api/admin/users.ts and frontend/src/api/account.ts.
pub mod Routes
use revlm.Base.{ℕ, Option, some, ◌++◌, map, Text, codes, to_text}
use mathlib.Core.Option
use revlm.Api.Http.{
  Method, get, post, put, delete, Field, chars, number, Body, fields, Request, given, call, bare,
}

-- The balance is a number, as its print.
pub record AdminUser : Type 0 where
  pub id : ℕ
  pub email : Text
  pub username : Text
  pub role : Text
  pub status : ℕ
  pub balance_usd : Text

pub record CreateAdminUserRequest : Type 0 where
  pub email : Text
  pub username : Text
  pub password : Text
  pub role : Option Text

pub record UpdateAdminUserRequest : Type 0 where
  pub email : Option Text
  pub status : Option ℕ
  pub role : Option Text

unfoldable pub list_admin_users : Request
list_admin_users = bare get (codes "/api/admin/users")

unfoldable pub create_admin_user : CreateAdminUserRequest → Request
create_admin_user req = call post (codes "/api/admin/users") (
    fields (
      given "email" (some (chars req.email))
      ++ given "username" (some (chars req.username))
      ++ given "password" (some (chars req.password))
      ++ given "role" (Option.map chars req.role)))

unfoldable pub update_admin_user : ℕ → UpdateAdminUserRequest → Request
update_admin_user user_id req = call put (codes "/api/admin/users/" ++ to_text user_id) (
    fields (
      given "email" (Option.map chars req.email)
      ++ given "status" (Option.map number req.status)
      ++ given "role" (Option.map chars req.role)))

unfoldable pub reset_admin_user_password : ℕ → Text → Request
reset_admin_user_password user_id password =
    call post (codes "/api/admin/users/" ++ to_text user_id ++ codes "/password")
      (fields (given "password" (some (chars password))))

unfoldable pub add_admin_user_balance : ℕ → Text → Request
add_admin_user_balance user_id amount_usd =
    call post (codes "/api/admin/users/" ++ to_text user_id ++ codes "/balance")
      (fields (given "amount_usd" (some (chars amount_usd))))

unfoldable pub delete_admin_user : ℕ → Request
delete_admin_user user_id = bare delete (codes "/api/admin/users/" ++ to_text user_id)

unfoldable pub update_email : Text → Request
update_email email =
    call post (codes "/api/account/email") (fields (given "email" (some (chars email))))

unfoldable pub update_password : Text → Text → Request
update_password old_password new_password = call post (codes "/api/account/password") (
    fields (
      given "old_password" (some (chars old_password))
      ++ given "new_password" (some (chars new_password))))
