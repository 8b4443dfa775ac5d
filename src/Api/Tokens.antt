-- ===== src/Api/Tokens.antt =====
-- The requests of frontend/src/api/tokens.ts. The calls send nothing else and hand on the answer.
pub mod Routes
use revlm.Base.{ℕ, Bool, Option, some, List, ◌++◌, map, Text, codes, to_text}
use revlm.Api.{non_empty}
use mathlib.Core.Option
use revlm.Usage.AdminQuery.{present}
use revlm.Api.Http.{
  Method, get, post, put, delete, Field, chars, number, Body, fields, Request, given, call, bare,
}

pub record UserToken : Type 0 where
  pub id : ℕ
  pub name : Option Text
  pub status : ℕ
  pub channel_group_id : Option ℕ

record RevealedToken : Type 0 where
  pub token_id : ℕ
  pub token : Text

-- A group's multiplier is a number, as its print.
pub record TokenChannelGroupOption : Type 0 where
  pub id : ℕ
  pub name : Text
  pub description : Option Text
  pub status : Bool
  pub price_multiplier : Text

pub record UserTokenChannelGroup : Type 0 where
  pub token_id : ℕ
  pub channel_group_id : ℕ
  pub allowed_channel_groups : List TokenChannelGroupOption

unfoldable pub list_user_tokens : Request
list_user_tokens = bare get (codes "/api/token")

unfoldable pub create_user_token : Option Text → Request
create_user_token name =
    call post (codes "/api/token") (fields (given "name" (Option.map chars (present name))))

unfoldable pub rotate_user_token : ℕ → Request
rotate_user_token token_id = bare post (codes "/api/token/" ++ to_text token_id ++ codes "/rotate")

unfoldable pub reveal_user_token : ℕ → Request
reveal_user_token token_id = bare get (codes "/api/token/" ++ to_text token_id ++ codes "/reveal")

unfoldable pub revoke_user_token : ℕ → Request
revoke_user_token token_id = bare post (codes "/api/token/" ++ to_text token_id ++ codes "/revoke")

unfoldable pub delete_user_token : ℕ → Request
delete_user_token token_id = bare delete (codes "/api/token/" ++ to_text token_id)

unfoldable pub get_user_token_channel : ℕ → Request
get_user_token_channel token_id =
    bare get (codes "/api/token/" ++ to_text token_id ++ codes "/channel")

unfoldable pub set_user_token_channel : ℕ → ℕ → Request
set_user_token_channel token_id channel_group_id =
    call put (codes "/api/token/" ++ to_text token_id ++ codes "/channel")
      (fields (given "channel_group_id" (some (number channel_group_id))))
