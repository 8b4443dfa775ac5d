-- ===== src/Tokens/Page/Handlers.antt =====
-- The buttons of the table of tokens and the form for a new one, in frontend/src/pages/TokensPage.tsx.
use revlm.Base.{
  ℕ, Bool, false, Option, none, some, List, [], ◌∷◌, if◌then◌else◌, or_else, Text, codes, is_empty,
  trim,
}
use revlm.Api.{Reply, answered, error, thrown, Outcome, loaded, failed, settle, or_text, non_empty}
use revlm.Api.Tokens.{UserToken}
use revlm.Tokens.Page.{Page, no_text, remove_entry, shown, refresh}

unfoldable pub open_generated_token_modal : Text → Page → Page
open_generated_token_modal token p = record p { generated_copied = false; generated_token = token }

-- `ok` says whether the clipboard took the text.
unfoldable pub copy_token : Bool → ℕ → Page → Page
copy_token ok id p = if ok then record p { copied_id = some id } else p

-- How `revealToken` ends.
pub data Revealed : Type 0 where
  token : Text → Revealed
  raised : Text → Revealed
  raised_other : Revealed

abbrev reveal_failed : Text
reveal_failed = codes "查看失败"

-- A blank token counts as a failure.
abbrev pub take_token : ℕ → Text → Page → Page × Revealed
take_token id t p =
    if is_empty (trim t)
    then (p, raised reveal_failed)
    else (record p { revealed = (id, t) ∷ p.revealed }, token t)

abbrev pub take_answer : ℕ → Reply Text → Page → Page × Revealed
take_answer id (answered r) p =
    if r.success
    then take_token id (or_else r.body []) p
    else (p, raised (or_text (or_else r.message []) reveal_failed))
take_answer id (error message) p = (p, raised message)
take_answer id thrown p = (p, raised_other)

abbrev end_reveal : ℕ → Page × Revealed → Page × Revealed
end_reveal id (p, r) = (record p { reveal_loading = (id, false) ∷ p.reveal_loading }, r)

abbrev pub reveal_shown : Option Text → ℕ → Reply Text → Page → Page × Revealed
reveal_shown (some t) id reply p = (p, token t)
reveal_shown none id reply p = end_reveal id (take_answer id reply p)

-- The answer's data are the token; it is asked for only if none is shown.
unfoldable pub reveal_token : ℕ → Reply Text → Page → Page × Revealed
unfolding shown
reveal_token id reply p = reveal_shown (shown p id) id reply p

abbrev pub clear_err : Page → Page
clear_err p = record p { tokens_err = no_text }

abbrev report : Page × Revealed → Page
report (p, token t) = p
report (p, raised message) = record p { tokens_err = message }
report (p, raised_other) = record p { tokens_err = reveal_failed }

abbrev toggle_shown : Option Text → ℕ → Reply Text → Page → Page
toggle_shown (some t) id reply p = record p { revealed = remove_entry id p.revealed }
toggle_shown none id reply p = report (reveal_token id reply p)

-- The button that shows or hides a token.
unfoldable on_toggle_reveal : ℕ → Reply Text → Page → Page
unfolding shown reveal_token remove_entry
on_toggle_reveal id reply p = toggle_shown (shown p id) id reply (clear_err p)

abbrev pub copy_revealed : Bool → ℕ → Page × Revealed → Page
copy_revealed ok id (p, token t) = copy_token ok id p
copy_revealed ok id (p, raised message) = record p { tokens_err = message }
copy_revealed ok id (p, raised_other) = record p { tokens_err = codes "复制失败" }

-- The button that copies a token, and the text that it copies.
unfoldable pub on_copy : Bool → ℕ → Reply Text → Page → Page × Revealed
unfolding copy_token reveal_token
on_copy ok id reply p = let r = reveal_token id reply (clear_err p) in (copy_revealed ok id r, r.1)

abbrev pub forget : ℕ → Page → Page
forget id p = record p { tokens_err = no_text; revealed = remove_entry id p.revealed }

-- `if (tok) openGeneratedTokenModal(tok)`
abbrev pub open_if_some : Text → Page → Page
open_if_some [] p = p
open_if_some (c ∷ t) p = open_generated_token_modal (c ∷ t) p

abbrev pub rotated : Outcome Text → Reply (List UserToken) → Page → Page
rotated (loaded d) list p = open_if_some (or_else d []) (refresh list p)
rotated (failed message) list p = record p { tokens_err = message }

-- The button that makes a new secret: the old one goes before the server is asked.
unfoldable pub on_rotate : ℕ → Reply Text → Reply (List UserToken) → Page → Page
unfolding refresh remove_entry open_generated_token_modal
on_rotate id reply list p = rotated (settle (codes "重新生成失败") reply) list (forget id p)

abbrev then_refresh : {A : Type 0} → Outcome A → Reply (List UserToken) → Page → Page
then_refresh (loaded d) list p = refresh list p
then_refresh (failed message) list p = record p { tokens_err = message }

unfoldable on_revoke : {A : Type 0} → Reply A → Reply (List UserToken) → Page → Page
unfolding refresh
on_revoke reply list p = then_refresh (settle (codes "撤销失败") reply) list (clear_err p)

unfoldable on_delete : {A : Type 0} → Reply A → Reply (List UserToken) → Page → Page
unfolding refresh
on_delete reply list p = then_refresh (settle (codes "删除失败") reply) list (clear_err p)

-- The name that a creation sends.
unfoldable created_name : Page → Option Text
created_name p = non_empty (trim p.name)

abbrev created : Outcome Text → Reply (List UserToken) → Page → Page
created (loaded d) list p = refresh list (record p {
  pending_generated_token = if is_empty (trim (or_else d [])) then none else d;
  name = no_text;
})
created (failed message) list p = record p { tokens_err = message }

unfoldable on_create : Reply Text → Reply (List UserToken) → Page → Page
unfolding refresh
on_create reply list p = created (settle (codes "创建失败") reply) list (clear_err p)

-- The form of the creation is closed: the new token, if there is one, is shown.
unfoldable on_create_hidden : Page → Page
unfolding open_generated_token_modal
on_create_hidden p =
    open_if_some (or_else p.pending_generated_token [])
      (record p { name = no_text; pending_generated_token = none })
