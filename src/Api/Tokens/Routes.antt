-- ===== src/Api/Tokens/Routes.antt =====
-- The routes of the token calls, read back from method and path as a server reads them.
use revlm.Base.{
  String, ℕ, ◌≡◌, refl, ◌∙◌, Option, none, some, List, [], ◌∷◌, if◌then◌else◌, Text, codes, text_eq,
  value,
}
use revlm.Api.Http.{Method, get, post, put, delete, Request}
use revlm.Api.Paths.{Piece, word, id, route_of, route_of-path, numbered}
use revlm.Api.Tokens.{
  list_user_tokens, create_user_token, rotate_user_token, reveal_user_token, revoke_user_token,
  delete_user_token, get_user_token_channel, set_user_token_channel,
}

-- What a request is about, without its body.
pub data TokenRoute : Type 0 where
  listing : TokenRoute
  creation : TokenRoute
  rotation : ℕ → TokenRoute
  revelation : ℕ → TokenRoute
  revocation : ℕ → TokenRoute
  deletion : ℕ → TokenRoute
  channel : ℕ → TokenRoute
  new_channel : ℕ → TokenRoute

abbrev token_action : Method → ℕ → Text → Option TokenRoute
token_action get n a =
    if text_eq a (codes "reveal")
    then some (revelation n)
    else if text_eq a (codes "channel")
    then some (channel n)
    else none
token_action post n a =
    if text_eq a (codes "rotate")
    then some (rotation n)
    else if text_eq a (codes "revoke")
    then some (revocation n)
    else none
token_action put n a = if text_eq a (codes "channel") then some (new_channel n) else none
token_action delete n a = none

abbrev token_path : Method → List Text → Option TokenRoute
token_path get [] = some listing
token_path post [] = some creation
token_path delete (t ∷ []) = some (deletion (value t))
token_path m (t ∷ a ∷ []) = token_action m (value t) a
token_path _ _ = none

abbrev root : List Text
root = [] ∷ codes "api" ∷ codes "token" ∷ []

unfoldable pub token_route : Request → Option TokenRoute
token_route r = route_of root token_path r

abbrev pieces : ℕ → String → List Piece
pieces n a = word "api" ∷ word "token" ∷ id n ∷ word a ∷ []

-- Every call of the token API has its own method and path, from which the call and its identifier
-- are read back.
pub token_route_lem :
    (n : ℕ) (name : Option Text) (group : ℕ)
    → (token_route list_user_tokens ≡ some listing)
      × (token_route (create_user_token name) ≡ some creation)
      × (token_route (rotate_user_token n) ≡ some (rotation n))
      × (token_route (reveal_user_token n) ≡ some (revelation n))
      × (token_route (revoke_user_token n) ≡ some (revocation n))
      × (token_route (delete_user_token n) ≡ some (deletion n))
      × (token_route (get_user_token_channel n) ≡ some (channel n))
      × (token_route (set_user_token_channel n group) ≡ some (new_channel n))
unfolding token_route list_user_tokens create_user_token rotate_user_token reveal_user_token
    revoke_user_token delete_user_token get_user_token_channel set_user_token_channel
token_route_lem n name group = (
  refl,
  refl,
  route_of-path root token_path post (pieces n "rotate") refl ∙ numbered rotation n,
  route_of-path root token_path get (pieces n "reveal") refl ∙ numbered revelation n,
  route_of-path root token_path post (pieces n "revoke") refl ∙ numbered revocation n,
  route_of-path root token_path delete (word "api" ∷ word "token" ∷ id n ∷ []) refl
      ∙ numbered deletion n,
  route_of-path root token_path get (pieces n "channel") refl ∙ numbered channel n,
  route_of-path root token_path put (pieces n "channel") refl ∙ numbered new_channel n,
)
