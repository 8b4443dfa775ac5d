-- ===== src/Tokens/Page.antt =====
-- The tokens, their secrets and the handlers of the table in frontend/src/pages/TokensPage.tsx. A
-- handler that waits for the server takes the answers as arguments and runs to its end before another
-- one starts. `revealed` is an object by identifiers: an entry in front hides the later ones.
pub mod Handlers
pub mod Secrets
pub mod Laws
use revlm.Base.{
  ℕ, Bool, true, false, ◌&&◌, ◌||◌, Option, none, some, List, [], ◌∷◌, ◌==◌, if◌then◌else◌, or_else,
  Text, codes,
}
use revlm.Api.{Reply, Outcome, loaded, failed, settle, or_text, non_empty}
use revlm.Api.Tokens.{UserToken}

pub record Page : Type 0 where
  pub tokens : List UserToken
  pub tokens_loading : Bool
  pub tokens_err : Text
  pub revealed : List (ℕ × Text)
  pub reveal_loading : List (ℕ × Bool)
  pub copied_id : Option ℕ
  pub name : Text
  pub pending_generated_token : Option Text
  pub generated_token : Text
  pub generated_copied : Bool

abbrev pub no_text : Text
no_text = []

abbrev pub initial : Page
initial = record {
  tokens = [];
  tokens_loading = true;
  tokens_err = [];
  revealed = [];
  reveal_loading = [];
  copied_id = none;
  name = [];
  pending_generated_token = none;
  generated_token = [];
  generated_copied = false;
}

-- `delete next[id]`, and the loops that keep the entries of active tokens.
module _ {ℓ} {V : Type ℓ} where
  unfoldable pub entry : ℕ → List (ℕ × V) → Option V
  entry id [] = none
  entry id ((k, v) ∷ es) = if k == id then some v else entry id es

  unfoldable pub remove_entry : ℕ → List (ℕ × V) → List (ℕ × V)
  remove_entry id [] = []
  remove_entry id ((k, v) ∷ es) =
      if k == id then remove_entry id es else (k, v) ∷ remove_entry id es

  unfoldable pub keep_entries : (ℕ → Bool) → List (ℕ × V) → List (ℕ × V)
  keep_entries test [] = []
  keep_entries test ((k, v) ∷ es) =
      if test k then (k, v) ∷ keep_entries test es else keep_entries test es

-- `new Set(nextTokens.filter((t) => t.status === 1).map((t) => t.id)).has(id)`
unfoldable pub is_active : List UserToken → ℕ → Bool
is_active [] id = false
is_active (t ∷ ts) id = (t.status == 1) && (t.id == id) || is_active ts id

abbrev pub text_of : Option Text → Option Text
text_of none = none
text_of (some t) = non_empty t

-- `revealed[id]` where it is not the empty text.
unfoldable pub shown : Page → ℕ → Option Text
unfolding entry
shown p id = text_of (entry id p.revealed)

abbrev show_tokens : List UserToken → Page → Page
show_tokens next p = record p {
  tokens = next;
  revealed = keep_entries (is_active next) p.revealed;
  reveal_loading = keep_entries (is_active next) p.reveal_loading;
  tokens_err = no_text;
  tokens_loading = false;
}

abbrev pub refreshed : Outcome (List UserToken) → Page → Page
refreshed (loaded d) p = show_tokens (or_else d []) p
refreshed (failed message) p = record p { tokens_err = message; tokens_loading = false }

unfoldable pub refresh : Reply (List UserToken) → Page → Page
unfolding is_active keep_entries
refresh reply p = refreshed (settle (codes "加载失败") reply) p
