-- ===== src/Tests/Sessions.antt =====
-- The session and its guard at concrete inputs. A user stands for the role.
use revlm.Base.{◌≡◌, ◌⊎◌, [], Text, codes, true, false, none, some}
use revlm.Auth.Session.{Call, returned, rejected, AuthState, login}
use revlm.Api.{loaded}
use revlm.Auth.Pages.{Account, on_account_form}
use revlm.Auth.Pages.Laws.{StaysFor, on_account_form-SignsOut}
use revlm.Auth.Laws.{SignsIn, login-SignsIn}

abbrev accepted_call : Call Text
accepted_call = returned (some (record { success = true; message = none; body = none }))

abbrev session : Call Text
session = returned (some (record { success = true; message = none; body = some (codes "root") }))

abbrev nobody : AuthState Text
nobody = record { user = none; booting = false; loading = false }

login-SignsIn_example : SignsIn accepted_call session nobody (login accepted_call session nobody)
login-SignsIn_example = login-SignsIn accepted_call session nobody

abbrev gone : Call Text
gone = returned (some (record { success = false; message = none; body = none }))

abbrev account : Account Text
account = record {
  session = record nobody { user = some (codes "root") };
  err = [];
  notice = codes "已保存";
  route = none;
}

on_account_form-SignsOut_example :
    ((on_account_form (codes "邮箱已更新，请重新登录") (loaded (some true)) (rejected []) gone account).route
      ≡ some (codes "邮箱已更新，请重新登录"))
    × (((on_account_form
            (codes "邮箱已更新，请重新登录")
            (loaded (some true))
            (rejected [])
            gone
            account).session.user
          ≡ none)
        ⊎ ((u : Text) × ((on_account_form
                (codes "邮箱已更新，请重新登录")
                (loaded (some true))
                (rejected [])
                gone
                account).session.user
              ≡ some u)
            × StaysFor (rejected []) gone (some (codes "root")) u))
on_account_form-SignsOut_example =
    on_account_form-SignsOut (codes "邮箱已更新，请重新登录") (rejected []) gone account
