-- ===== src/Auth/Pages.antt =====
-- The pages around the session: frontend/src/pages/LoginPage.tsx, RegisterPage.tsx and AccountPage.tsx.
-- `caught` is what is thrown, by its message. A handler takes the answers as arguments
-- and runs to its end.
pub mod Laws
use revlm.Base.{
  Bool, true, false, Option, none, some, [], if◌then◌else◌, or_else, Text, codes, is_empty, trim,
}
use revlm.Api.{Outcome, loaded, failed, or_text}
use revlm.Format.AuthError.{PageError, Caught, Action, format_auth_error}
use revlm.Format.AuthError
use revlm.Auth.Session.{Call, Finish, done, raised, AuthState, login, register, logout, refresh}

-- `LocationState`
pub record LocationState : Type 0 where
  pub from : Option Text
  pub notice : Option Text
  pub error : Option Text

unfoldable pub notice_of : LocationState → Text
notice_of l = trim (or_else l.notice [])

abbrev error_of : Action → Text → Option PageError
error_of action v = if is_empty v then none else some (format_auth_error action (AuthError.text v))

unfoldable pub routed_error : Action → LocationState → Option PageError
unfolding format_auth_error
routed_error action l = error_of action (trim (or_else l.error []))

unfoldable pub from_of : LocationState → Text
from_of l = or_text (trim (or_else l.from [])) (codes "/dashboard")

abbrev or_routed : Option PageError → Option PageError → Option PageError
or_routed none routed = routed
or_routed (some e) routed = some e

-- `effectiveError`, of the error of the page.
unfoldable effective_error : Action → Option PageError → LocationState → Option PageError
unfolding routed_error
effective_error action err l = or_routed err (routed_error action l)

-- The session, the error of the page, and the path that is gone to.
pub record Ended (U : Type 0) : Type 0 where
  pub session : AuthState U
  pub err : Option PageError
  pub route : Option Text

module _ {U : Type 0} (caught : Text → Caught) where
  abbrev pub ended : Action → Text → AuthState U × Finish Unit → Ended U
  ended action path (s, done tt) = record { session = s; err = none; route = some path }
  ended action path (s, raised message) = record {
    session = s;
    err = some (format_auth_error action (caught message));
    route = none;
  }

  unfoldable pub on_login : LocationState → Call U → Call U → AuthState U → Ended U
  unfolding from_of format_auth_error login
  on_login l answer self s = ended AuthError.login (from_of l) (login answer self s)

  unfoldable pub on_register : Call U → Call U → AuthState U → Ended U
  unfolding format_auth_error register
  on_register answer self s = ended AuthError.sign_up (codes "/dashboard") (register answer self s)

-- What `LoginPage` and `RegisterPage` render.
pub data Rendered : Type 0 where
  to_dashboard : Rendered
  form : Rendered

abbrev pub rendered : {U : Type 0} → Option U → Rendered
rendered none = form
rendered (some u) = to_dashboard

pub record Account (U : Type 0) : Type 0 where
  pub session : AuthState U
  pub err : Text
  pub notice : Text
  -- The notice that the page of the login is gone to with.
  pub route : Option Text

module _ {U : Type 0} where
  -- Both calls may fail, which is passed over.
  unfoldable pub force_logout : Text → Call Unit → Call U → Account U → Account U
  unfolding logout refresh
  force_logout message out self a = record a {
    session = (refresh self (logout out a.session).0).0;
    route = some (or_text message (codes "请重新登录"));
  }

  -- `onResult`; the answer says whether the session has ended.
  abbrev pub account_ended : Text → Outcome Bool → Call Unit → Call U → Account U → Account U
  account_ended message (loaded none) out self a = record a { notice = codes "已保存" }
  account_ended message (loaded (some false)) out self a = record a { notice = codes "已保存" }
  account_ended message (loaded (some true)) out self a = force_logout message out self a
  account_ended message (failed m) out self a = record a { err = or_text m (codes "保存失败") }

  -- One of the two forms, by the outcome of its request.
  unfoldable pub on_account_form : Text → Outcome Bool → Call Unit → Call U → Account U → Account U
  unfolding force_logout
  on_account_form message o out self a =
      account_ended message o out self (record a { err = []; notice = [] })
