-- ===== src/Tokens/Page/Secrets.antt =====
-- The entries of an object by identifiers, and which secrets the page shows.
use revlm.Base.{
  ℕ, ◌≡◌, refl, ap, ◌∙◌, Bool, true, false, Option, none, List, [], ◌∷◌, arith, ◌==◌, if◌then◌else◌,
  ==_iff, or_else, Text, codes,
}
use revlm.Api.{Reply, Outcome, loaded, failed, settle}
use revlm.Api.Tokens.{UserToken}
use revlm.Tokens.Page.{
  Page, entry, remove_entry, keep_entries, is_active, text_of, shown, refresh, refreshed,
}

module _ {ℓ} {V : Type ℓ} where
  entry-keep_entries :
      (test : ℕ → Bool) (id : ℕ) (es : List (ℕ × V))
      → entry id (keep_entries test es) ≡ (if test id then entry id es else none)
  unfolding entry keep_entries
  entry-keep_entries test id [] = ground arith
  entry-keep_entries test id ((k, v) ∷ es) =
      ground (arith, entry-keep_entries test id es, ==_iff k id, λ (e : k ≡ id). ap test e)

  entry-remove_entry :
      (gone id : ℕ) (es : List (ℕ × V))
      → entry id (remove_entry gone es) ≡ (if gone == id then none else entry id es)
  unfolding entry remove_entry
  entry-remove_entry gone id [] = ground arith
  entry-remove_entry gone id ((k, v) ∷ es) =
      ground (arith, entry-remove_entry gone id es, ==_iff k gone, ==_iff k id, ==_iff gone id)

-- The secrets that a reload leaves.
abbrev pub kept_by : Outcome (List UserToken) → Page → ℕ → Option Text
kept_by (loaded d) p id = if is_active (or_else d []) id then shown p id else none
kept_by (failed message) p id = shown p id

text_of_if :
    (b : Bool) (o : Option Text) → text_of (if b then o else none) ≡ (if b then text_of o else none)
text_of_if true o = refl
text_of_if false o = refl

shown-refreshed :
    (o : Outcome (List UserToken)) (p : Page) (id : ℕ) → shown (refreshed o p) id ≡ kept_by o p id
unfolding shown
shown-refreshed (loaded d) p id =
    ap text_of (entry-keep_entries (is_active (or_else d [])) id p.revealed)
    ∙ text_of_if (is_active (or_else d []) id) (entry id p.revealed)
shown-refreshed (failed message) p id = refl

-- A reload that succeeds shows the secrets of active tokens alone, each as before; one that fails
-- leaves all secrets as they are.
pub shown-refresh :
    (reply : Reply (List UserToken)) (p : Page) (id : ℕ)
    → shown (refresh reply p) id ≡ kept_by (settle (codes "加载失败") reply) p id
unfolding refresh
shown-refresh reply p id = shown-refreshed (settle (codes "加载失败") reply) p id

-- A secret that is taken away is no longer shown, and the others are.
pub shown-remove :
    (gone id : ℕ) (p : Page)
    → shown (record p { revealed = remove_entry gone p.revealed }) id
      ≡ (if gone == id then none else shown p id)
unfolding shown
shown-remove gone id p = rw (entry-remove_entry gone id p.revealed) (ground arith)
