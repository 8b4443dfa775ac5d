-- ===== src/Api/Users/Routes.antt =====
-- The routes of the calls on users and on the own account, read back from method and path.
use revlm.Base.{
  ℕ, ◌≡◌, refl, ◌∙◌, Option, none, some, List, [], ◌∷◌, if◌then◌else◌, Text, codes, text_eq, value,
}
use revlm.Api.Http.{Method, get, post, put, delete, Request}
use revlm.Api.Paths.{Piece, word, id, route_of, route_of-path, numbered}
use revlm.Api.Users.{
  CreateAdminUserRequest, UpdateAdminUserRequest, list_admin_users, create_admin_user,
  update_admin_user, reset_admin_user_password, add_admin_user_balance, delete_admin_user,
  update_email, update_password,
}

-- What a request is about, without its body.
pub data UserRoute : Type 0 where
  listing creation own_email own_password : UserRoute
  update password balance deletion : ℕ → UserRoute

abbrev user_action : ℕ → Text → Option UserRoute
user_action n a =
    if text_eq a (codes "password")
    then some (password n)
    else if text_eq a (codes "balance")
    then some (balance n)
    else none

abbrev user_path : Method → List Text → Option UserRoute
user_path get [] = some listing
user_path post [] = some creation
user_path put (t ∷ []) = some (update (value t))
user_path delete (t ∷ []) = some (deletion (value t))
user_path post (t ∷ a ∷ []) = user_action (value t) a
user_path _ _ = none

abbrev account_path : Method → List Text → Option UserRoute
account_path post (a ∷ []) =
    if text_eq a (codes "email")
    then some own_email
    else if text_eq a (codes "password")
    then some own_password
    else none
account_path _ _ = none

abbrev root : List Text
root = [] ∷ codes "api" ∷ codes "admin" ∷ codes "users" ∷ []

unfoldable pub user_route : Request → Option UserRoute
user_route r = route_of root user_path r

unfoldable pub account_route : Request → Option UserRoute
account_route r = route_of ([] ∷ codes "api" ∷ codes "account" ∷ []) account_path r

abbrev pieces : List Piece → List Piece
pieces ps = word "api" ∷ word "admin" ∷ word "users" ∷ ps

-- Every call on users and on the own account has its own method and path, from which the call and
-- the user's identifier, where the path has it, are read back.
pub user_route_lem :
    (n : ℕ) (new : CreateAdminUserRequest) (req : UpdateAdminUserRequest) (s t : Text)
    → (user_route list_admin_users ≡ some listing)
      × (user_route (create_admin_user new) ≡ some creation)
      × (user_route (update_admin_user n req) ≡ some (update n))
      × (user_route (reset_admin_user_password n s) ≡ some (password n))
      × (user_route (add_admin_user_balance n s) ≡ some (balance n))
      × (user_route (delete_admin_user n) ≡ some (deletion n))
      × (account_route (update_email s) ≡ some own_email)
      × (account_route (update_password s t) ≡ some own_password)
unfolding user_route account_route list_admin_users create_admin_user update_admin_user
    reset_admin_user_password add_admin_user_balance delete_admin_user update_email update_password
user_route_lem n new req s t = (
  refl,
  refl,
  route_of-path root user_path put (pieces (id n ∷ [])) refl ∙ numbered update n,
  route_of-path root user_path post (pieces (id n ∷ word "password" ∷ [])) refl
      ∙ numbered password n,
  route_of-path root user_path post (pieces (id n ∷ word "balance" ∷ [])) refl ∙ numbered balance n,
  route_of-path root user_path delete (pieces (id n ∷ [])) refl ∙ numbered deletion n,
  refl,
  refl,
)
