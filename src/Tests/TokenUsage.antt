-- ===== src/Tests/TokenUsage.antt =====
-- The dialog of a token's usage at concrete inputs.
use revlm.Base.{Option, Text, codes, ◌≡◌, refl, ◌∷◌, [], true, none, some, ℕ, trim, List}
use revlm.Api.{Reply, answered, thrown}
use revlm.Api.Tokens.{UserToken}
use revlm.Usage.Labels.{Moment}
use revlm.Usage.UserPage.{Window}
use revlm.Tokens.Usage.{
  Asked, Dialog, initial, refresh_usage, open_token_usage_modal, receive, Reach,
}
use revlm.Tokens.Usage.Laws.{Run, stay, hear, IsOwn, open_token_usage_modal-IsOwn, Reach-crossed}

abbrev seven : UserToken
seven = record { id = 7; name = some (codes "ci"); status = 1; channel_group_id = some 2 }

abbrev nobody : Text → Option Moment
nobody iso = none

abbrev eight : UserToken
eight = record { id = 8; name = none; status = 1; channel_group_id = none }

abbrev day_window : Reply (List (Window ℕ))
day_window = answered (record {
  success = true;
  message = none;
  body = some (record { since = codes "2024-05-01T00:00:00Z"; rest = 12 } ∷ []);
})

abbrev query_on_seven : Asked
query_on_seven = record { token_id = 7; start_value = []; end_value = [] }

asked_on_seven :
    Run {W = ℕ} nobody (open_token_usage_modal seven initial) ((query_on_seven, day_window) ∷ []) (
      receive nobody query_on_seven day_window
        (record (open_token_usage_modal seven initial) { sent = [] }))
unfolding open_token_usage_modal refresh_usage trim
asked_on_seven = hear [] [] query_on_seven day_window stay refl

open_token_usage_modal-IsOwn_example : IsOwn nobody seven ((query_on_seven, day_window) ∷ []) (
    receive nobody query_on_seven day_window
      (record (open_token_usage_modal seven initial) { sent = [] }))
open_token_usage_modal-IsOwn_example =
    open_token_usage_modal-IsOwn nobody seven initial _ _ refl asked_on_seven

Reach-crossed_example :
    (s : Dialog ℕ) × (q : Asked) × Reach nobody s
    × (s.token ≡ some eight)
    × (s.sent ≡ q ∷ [])
    × (q.token_id ≡ 7)
    × ((receive nobody q day_window (record s { sent = [] })).token ≡ some eight)
    × ((receive nobody q day_window (record s { sent = [] })).found
        ≡ some (record { since = codes "2024-05-01T00:00:00Z"; rest = 12 }))
Reach-crossed_example = Reach-crossed nobody seven eight thrown day_window
