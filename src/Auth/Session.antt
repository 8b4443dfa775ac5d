-- ===== src/Auth/Session.antt =====
-- frontend/src/auth/AuthContext.tsx and RequireAuth.tsx. A call of the server is a parameter by its
-- answer, and each function runs to its end before another one starts. `U` is the type `User`, of
-- which only the role is looked at.
use revlm.Base.{
  Bool, true, false, not, ◌&&◌, Option, none, some, [], if◌then◌else◌, or_else, Text, codes,
  text_eq,
}
use revlm.Api.{ApiResponse, or_text}

-- What `api.get` and `api.post` come to: a body, which may be missing, or an exception.
pub data Call (A : Type 0) : Type 0 where
  returned : Option (ApiResponse A) → Call A
  rejected : Text → Call A

-- How an async function ends: with a value or with an exception that its caller gets.
pub data Finish (A : Type 0) : Type 0 where
  done : A → Finish A
  raised : Text → Finish A

-- `{ user, booting, loading }`
pub record AuthState (U : Type 0) : Type 0 where
  pub user : Option U
  pub booting : Bool
  pub loading : Bool

-- What `RequireAuth` renders.
pub data Shown : Type 0 where
  boot_screen : Shown
  to_login : Shown
  to_dashboard : Shown
  children : Shown

module _ {U : Type 0} where
  abbrev pub initial : AuthState U
  initial = record { user = none; booting = true; loading = true }

  -- `finally`
  abbrev finished : Bool → AuthState U → AuthState U
  finished mark_boot_done s = record s {
    loading = false;
    booting = if mark_boot_done then false else s.booting;
  }

  -- `res.data?.success && res.data.data`
  abbrev pub user_of : Option (ApiResponse U) → Option U
  user_of none = none
  user_of (some r) = if r.success then r.body else none

  abbrev set_user : Option U → AuthState U → AuthState U
  set_user u s = record s { user = u }

  -- The state and the result at the end of `refreshInternal`.
  unfoldable pub refresh_internal : Bool → Call U → AuthState U → AuthState U × Finish (Option U)
  refresh_internal mark_boot_done (returned r) s =
      (finished mark_boot_done (set_user (user_of r) s), done (user_of r))
  refresh_internal mark_boot_done (rejected message) s = (finished mark_boot_done s, raised message)

  unfoldable pub refresh : Call U → AuthState U → AuthState U × Finish (Option U)
  unfolding refresh_internal
  refresh self s = refresh_internal false self s

  -- `if (!next) throw new Error(...)` behind `await refresh()`
  abbrev pub need_user : Text → Finish (Option U) → Finish Unit
  need_user message (done none) = raised message
  need_user message (done (some u)) = done tt
  need_user message (raised e) = raised e

  abbrev pub set_loading : Bool → AuthState U → AuthState U
  set_loading b s = record s { loading = b }

  -- `if (res.data.data) setUser(res.data.data)`
  abbrev pub keep_user : Option U → AuthState U → AuthState U
  keep_user none s = s
  keep_user (some u) s = set_user (some u) s

  -- `await refresh()` and the test behind it, and `finally`.
  abbrev pub confirm : Text → Call U → AuthState U → AuthState U × Finish Unit
  confirm no_session self s =
      let r = refresh self s in (set_loading false r.0, need_user no_session r.1)

  abbrev pub accepted :
      Text → Text → Call U → ApiResponse U → AuthState U → AuthState U × Finish Unit
  accepted failure no_session self r s =
      if r.success
      then confirm no_session self (keep_user r.body s)
      else (set_loading false s, raised (or_text (or_else r.message []) failure))

  -- The body that `login` and `register` share; they differ in the request and in the messages.
  abbrev pub sign_in : Text → Text → Call U → Call U → AuthState U → AuthState U × Finish Unit
  sign_in failure no_session (rejected message) self s = (set_loading false s, raised message)
  sign_in failure no_session (returned none) self s = (set_loading false s, raised failure)
  sign_in failure no_session (returned (some r)) self s =
      accepted failure no_session self r (set_loading true s)

  -- `answer` is that of the POST, `self` that of the GET behind it.
  unfoldable pub login : Call U → Call U → AuthState U → AuthState U × Finish Unit
  unfolding refresh
  login answer self s = sign_in (codes "登录失败") (codes "登录失败：会话初始化失败，请重试") answer self s

  unfoldable pub register : Call U → Call U → AuthState U → AuthState U × Finish Unit
  unfolding refresh
  register answer self s = sign_in (codes "注册失败") (codes "注册失败：会话初始化失败，请重试") answer self s

  unfoldable pub logout : Call Unit → AuthState U → AuthState U × Finish Unit
  logout (returned r) s = (set_loading false (set_user none s), done tt)
  logout (rejected message) s = (set_loading false s, raised message)

  abbrev pub guard_user : (U → Text) → Bool → Option U → Shown
  guard_user role root_only none = to_login
  guard_user role root_only (some u) =
      if root_only && not (text_eq (role u) (codes "root")) then to_dashboard else children

  unfoldable pub require_auth : (U → Text) → Bool → AuthState U → Shown
  require_auth role root_only s =
      if s.booting then boot_screen else guard_user role root_only s.user
