-- ===== src/Tokens/Groups/Laws.antt =====
-- What the choice of a token's channel group comes to.
use revlm.Base.{
  ℕ, ◌≡◌, refl, ap, ◌∙◌, ◌≢◌, ◌⊎◌, true, false, not, ◌&&◌, Option, some, List, [], ◌∷◌, ◌++◌, map,
  arith, ltb, ◌==◌, if◌then◌else◌, or_else, Text, codes, is_empty, to_text,
}
use revlm.Api.{ApiResponse, Reply, answered, error, or_text}
use revlm.Api.Tokens.{UserToken, TokenChannelGroupOption, UserTokenChannelGroup}
use revlm.Tokens.Page.{entry, no_text}
use revlm.Tokens.Groups.{
  Dialog, remember_group_names, group_of, format_token_channel_group, token_id,
}

-- The name of the last group with the identifier that has a name.
abbrev pub last_name : ℕ → List TokenChannelGroupOption → Option Text → Option Text
last_name id [] o = o
last_name id (g ∷ gs) o =
    last_name id gs (if (g.id == id) && ltb 0 g.id && not (is_empty g.name) then some g.name else o)

remember_lem :
    (id : ℕ) (gs : List TokenChannelGroupOption) (names : List (ℕ × Text))
    → entry id (remember_group_names gs names) ≡ last_name id gs (entry id names)
unfolding entry remember_group_names
remember_lem id [] names = refl
remember_lem id (g ∷ gs) names = remember_lem id gs _ ∙ ap (last_name id gs) (ground arith)

-- A token is shown with the last name that was remembered for its group, and by the group's number
-- where there is none; without a group it is shown as a dash.
pub format-remember_group_names :
    (t : UserToken) (gs : List TokenChannelGroupOption) (names : List (ℕ × Text))
    → format_token_channel_group (remember_group_names gs names) t ≡ (
        if group_of t == 0
        then codes "-"
        else or_text
            (or_else (last_name (group_of t) gs (entry (group_of t) names)) [])
            (codes "渠道组 #" ++ to_text (group_of t)))
unfolding format_token_channel_group
format-remember_group_names t gs names = rw (remember_lem (group_of t) gs names) refl

-- The tokens of a list with their groups.
abbrev groups_of : List UserToken → List (ℕ × ℕ)
groups_of ts = map (λ (t : UserToken). (t.id, group_of t)) ts

abbrev pub moved : ℕ → ℕ → List (ℕ × ℕ) → List (ℕ × ℕ)
moved id group ps = map (λ (p : ℕ × ℕ). (p.0, if p.0 == id then group else p.1)) ps

-- A saving that is done, of `s` the state before and of `r` its end.
pub record IsDone (s r : Dialog) : Type 0 where
  pub token : token_id s.token ≢ 0
  pub group : s.selected_group_id ≢ 0
  pub notice : r.notice ≡ codes "已保存"
  pub no_error : r.err ≡ []
  pub tokens :
      groups_of r.tokens ≡ moved (token_id s.token) s.selected_group_id (groups_of s.tokens)

-- One that is not: an error is shown, where no exception with an empty message stands behind it.
pub record IsStopped {A : Type 0} (first : Reply A) (refreshed : Reply UserTokenChannelGroup)
    (s r : Dialog) : Type 0 where
  pub no_notice : r.notice ≡ []
  pub tokens : r.tokens ≡ s.tokens
  pub shows : first ≢ error [] → refreshed ≢ error [] → r.err ≢ []

pub record Saves {A : Type 0} (first : Reply A) (refreshed : Reply UserTokenChannelGroup)
    (s r : Dialog) : Type 0 where
  pub idle : s.saving ≡ false → r.saving ≡ false
  pub ended : IsDone s r ⊎ IsStopped first refreshed s r
  pub accepted :
      (a : ApiResponse A) (b : ApiResponse UserTokenChannelGroup)
      → token_id s.token ≢ 0
      → s.selected_group_id ≢ 0
      → first ≡ answered a
      → a.success ≡ true
      → refreshed ≡ answered b
      → IsDone s r

module _ (s : Dialog) (t : token_id s.token ≢ 0) (g : s.selected_group_id ≢ 0) where
  abbrev cleared : Dialog
  cleared = record s { err = no_text; notice = no_text }

  module _ {A : Type 0} (first : Reply A) where
    abbrev Ends : Reply UserTokenChannelGroup → Dialog → Type 0
    Ends refreshed r = (r.saving ≡ false) × (IsDone s r ⊎ IsStopped first refreshed s r)
