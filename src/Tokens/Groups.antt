-- ===== src/Tokens/Groups.antt =====
-- The channel groups of the tokens in frontend/src/pages/TokensPage.tsx: the names of the groups and
-- the dialog that chooses a token's group. A handler takes the server's answers as arguments and runs
-- to its end before another one starts.
pub mod Laws
use revlm.Base.{
  ℕ, Bool, false, not, ◌&&◌, Option, none, some, List, [], ◌∷◌, ◌++◌, ltb, ◌==◌, if◌then◌else◌,
  or_else, Text, codes, is_empty, to_text,
}
use revlm.Api.{
  ApiResponse, Reply, answered, error, thrown, Outcome, loaded, failed, settle, or_text,
}
use revlm.Api.Tokens.{UserToken, TokenChannelGroupOption, UserTokenChannelGroup}
use revlm.Tokens.Page.{entry, no_text}

pub record Dialog : Type 0 where
  pub tokens : List UserToken
  pub tokens_err : Text
  pub group_names : List (ℕ × Text)
  pub token : Option UserToken
  pub found : Option UserTokenChannelGroup
  pub selected_group_id : ℕ
  pub loading : Bool
  pub saving : Bool
  pub err : Text
  pub notice : Text

-- The loop of `rememberGroupNames`.
unfoldable pub remember_group_names :
    List TokenChannelGroupOption → List (ℕ × Text) → List (ℕ × Text)
remember_group_names [] names = names
remember_group_names (g ∷ gs) names =
    remember_group_names gs
      (if ltb 0 g.id && not (is_empty g.name) then (g.id, g.name) ∷ names else names)

-- `id || 0`
abbrev pub group_of : UserToken → ℕ
group_of t = or_else t.channel_group_id 0

unfoldable pub format_token_channel_group : List (ℕ × Text) → UserToken → Text
unfolding entry
format_token_channel_group names t =
    if group_of t == 0
    then b'-' ∷ []
    else or_text (or_else (entry (group_of t) names) []) (codes "渠道组 #" ++ to_text (group_of t))

-- `setTokenChannelData(d)` and the two lines behind it.
abbrev pub take_groups : Option UserTokenChannelGroup → Dialog → Dialog
take_groups none s = record s { found = none; selected_group_id = 0 }
take_groups (some d) s = record s {
  found = some d;
  selected_group_id = d.channel_group_id;
  group_names = remember_group_names d.allowed_channel_groups s.group_names;
}

abbrev pub fail : Text → Dialog → Dialog
fail message s = record s { err = message; notice = no_text }

-- `prev.map((t) => (t.id === tokenID ? { ...t, channel_group_id: selectedGroupID } : t))`
unfoldable pub move_token : ℕ → ℕ → List UserToken → List UserToken
move_token id group [] = []
move_token id group (t ∷ ts) =
    (if t.id == id then record t { channel_group_id = some group } else t) ∷ move_token id group ts

abbrev save_done : ℕ → ℕ → Dialog → Dialog
save_done id group s = record s {
  tokens = move_token id group s.tokens;
  notice = codes "已保存";
  saving = false;
}

abbrev save_failed : Text → Dialog → Dialog
save_failed message s = record s { err = message; saving = false }

-- The second answer: one without success changes nothing, an exception ends the saving.
abbrev pub saved : ℕ → ℕ → Reply UserTokenChannelGroup → Dialog → Dialog
saved id group (answered r) s = save_done id group (if r.success then take_groups r.body s else s)
saved id group (error message) s = save_failed message s
saved id group thrown s = save_failed (codes "保存失败") s

abbrev pub save_outcome :
    {A : Type 0} → ℕ → ℕ → Outcome A → Reply UserTokenChannelGroup → Dialog → Dialog
save_outcome id group (loaded d) refreshed s = saved id group refreshed s
save_outcome id group (failed message) refreshed s = save_failed message s

abbrev pub token_id : Option UserToken → ℕ
token_id none = 0
token_id (some t) = t.id

-- `answer` is that of the saving, `refreshed` that of the call behind it.
unfoldable pub save_token_channel :
    {A : Type 0} → Reply A → Reply UserTokenChannelGroup → Dialog → Dialog
unfolding move_token remember_group_names
save_token_channel answer refreshed s =
    let id = token_id s.token in
    if id == 0
    then fail (codes "未选择 Token") s
    else if s.selected_group_id == 0
    then fail (codes "请选择一个渠道组") s
    else save_outcome id s.selected_group_id (settle (codes "保存失败") answer) refreshed
        (record s { err = no_text; notice = no_text })

abbrev opened : Outcome UserTokenChannelGroup → Dialog → Dialog
opened (loaded d) s = record (take_groups d s) { loading = false }
opened (failed message) s = record s { err = message; found = none; loading = false }

unfoldable open_token_channel_modal : UserToken → Reply UserTokenChannelGroup → Dialog → Dialog
unfolding remember_group_names
open_token_channel_modal t reply s = opened (settle (codes "加载失败") reply) (record s {
  tokens_err = no_text;
  err = no_text;
  notice = no_text;
  token = some t;
  found = none;
  selected_group_id = group_of t;
  saving = false;
})
