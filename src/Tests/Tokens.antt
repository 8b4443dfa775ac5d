-- ===== src/Tests/Tokens.antt =====
-- The page of the tokens at concrete inputs.
use revlm.Base.{Text, codes, ◌≡◌, refl, ◌∷◌, [], true, false, none, some, ℕ, ◌≢◌, trim, List, ◌⊎◌}
use revlm.Api.{ApiResponse, Reply, answered, thrown, settle}
use revlm.Api.Tokens.{UserToken, UserTokenChannelGroup}
use revlm.Tokens.Page.{Page, initial, entry, shown}
use revlm.Tokens.Page.Handlers.{token, on_copy, reveal_token, on_rotate}
use revlm.Tokens.Page.Laws.{left_over, Answers, on_rotate-shown, on_copy-token}
use revlm.Tokens.Groups.{Dialog}

abbrev seven : UserToken
seven = record { id = 7; name = some (codes "ci"); status = 1; channel_group_id = some 2 }

abbrev page : Page
page = record initial {
  tokens = seven ∷ [];
  tokens_loading = false;
  revealed = (7, codes "sk-old") ∷ [];
}

abbrev the_list : Reply (List UserToken)
the_list = answered (record { success = true; message = none; body = some (seven ∷ []) })

abbrev new_secret : Reply Text
new_secret = answered (record { success = true; message = none; body = some (codes "sk-new") })

on_rotate-shown_example :
    (shown (on_rotate 7 new_secret the_list page) 7 ≡ none)
    × (shown (on_rotate 7 new_secret the_list page) 8
        ≡ left_over
            (settle (codes "重新生成失败") new_secret)
            (settle (codes "加载失败") the_list)
            8
            (shown page 8))
on_rotate-shown_example = on_rotate-shown 7 8 new_secret the_list page

copied : (on_copy true 7 thrown page).1 ≡ token (codes "sk-old")
unfolding on_copy reveal_token shown entry
copied = refl

on_copy-token_example :
    (shown (on_copy true 7 thrown page).0 7 ≡ some (codes "sk-old"))
    × ((shown page 7 ≡ some (codes "sk-old"))
        ⊎ ((shown page 7 ≡ none) × (trim (codes "sk-old") ≢ []) × Answers thrown (codes "sk-old")))
on_copy-token_example = on_copy-token true 7 thrown page (codes "sk-old") copied

abbrev dialog : Dialog
dialog = record {
  tokens = seven ∷ [];
  tokens_err = [];
  group_names = [];
  token = some seven;
  found = none;
  selected_group_id = 3;
  loading = false;
  saving = false;
  err = [];
  notice = [];
}

abbrev ok : ApiResponse ℕ
ok = record { success = true; message = none; body = none }

abbrev no_groups : ApiResponse UserTokenChannelGroup
no_groups = record { success = false; message = none; body = none }
