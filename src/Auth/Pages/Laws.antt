-- ===== src/Auth/Pages/Laws.antt =====
-- How the pages around the session end.
use revlm.Base.{
  ◌≡◌, refl, sym, subst, true, Option, none, some, [], ◌⊎◌, inl, inr, Option-cases, Text, codes,
}
use revlm.Api.{loaded, or_text}
use revlm.Format.AuthError.{PageError, Caught, format_auth_error}
use revlm.Format.AuthError
use revlm.Auth.Session.{
  Call, returned, rejected, Finish, done, raised, AuthState, user_of, login, logout, refresh,
  refresh_internal,
}
use revlm.Auth.Laws.{IsSession, login-SignsIn, named_in_answer}
use revlm.Auth.Pages.{
  LocationState, from_of, Ended, ended, on_login, Account, force_logout, on_account_form,
}

module _ {U : Type 0} where
  -- The user behind a forced logout.
  abbrev pub left_user : Call Unit → Call U → Option U → Option U
  left_user out (returned r) before = user_of r
  left_user (returned r) (rejected m) before = none
  left_user (rejected m') (rejected m) before = before

  user-force_logout :
      (message : Text) (out : Call Unit) (self : Call U) (a : Account U)
      → (force_logout message out self a).session.user ≡ left_user out self a.session.user
  unfolding force_logout logout refresh refresh_internal
  user-force_logout message (returned r) (returned o) a = refl
  user-force_logout message (rejected m) (returned o) a = refl
  user-force_logout message (returned r) (rejected m) a = refl
  user-force_logout message (rejected m) (rejected k) a = refl

  route-force_logout :
      (message : Text) (out : Call Unit) (self : Call U) (a : Account U)
      → (force_logout message out self a).route ≡ some (or_text message (codes "请重新登录"))
  unfolding force_logout
  route-force_logout message out self a = refl

  -- Why somebody can still be signed in.
  abbrev pub StaysFor : Call Unit → Call U → Option U → U → Type 0
  StaysFor out self before u =
      IsSession self u
      ⊎ ((m : Text) × (k : Text) × (out ≡ rejected m) × (self ≡ rejected k) × (before ≡ some u))

  left_user-StaysFor :
      (out : Call Unit) (self : Call U) (before : Option U)
      → (left_user out self before ≡ none)
        ⊎ ((u : U) × (left_user out self before ≡ some u) × StaysFor out self before u)
  left_user-StaysFor out (returned o) before = elim (Option-cases (user_of o)) [
    | inl nobody ↦ inl nobody
    | inr (u, e) ↦ inr (u, e, inl (named_in_answer o u e))
  ]
  left_user-StaysFor (returned r) (rejected m) before = inl refl
  left_user-StaysFor (rejected k) (rejected m) before = elim (Option-cases before) [
    | inl nobody ↦ inl nobody
    | inr (u, e) ↦ inr (u, e, inr (k, m, refl, refl, e))
  ]

  -- A form of the account whose answer says that the session has ended: the page of the login is gone to
  -- with a notice, and nobody is signed in, unless the server still names somebody, or both the logout
  -- and the reload of the session fail.
  pub on_account_form-SignsOut :
      (message : Text) (out : Call Unit) (self : Call U) (a : Account U)
      → let b = on_account_form message (loaded (some true)) out self a in
        (b.route ≡ some (or_text message (codes "请重新登录")))
        × ((b.session.user ≡ none)
            ⊎ ((u : U) × (b.session.user ≡ some u) × StaysFor out self a.session.user u))
  unfolding on_account_form
  on_account_form-SignsOut message out self a = (
    route-force_logout message out self (record a { err = []; notice = [] }),
    subst (λ o. (o ≡ none) ⊎ ((u : U) × (o ≡ some u) × StaysFor out self a.session.user u))
        (sym (user-force_logout message out self (record a { err = []; notice = [] })))
        (left_user-StaysFor out self a.session.user),
  )

  -- How the page of the login ends.
  pub record Entered (l : LocationState) (self : Call U) (r : Ended U) : Type 0 where
    pub no_error : r.err ≡ none
    pub goes_on : r.route ≡ some (from_of l)
    pub signed_in : (u : U) × (r.session.user ≡ some u) × IsSession self u

  pub record Turned (caught : Text → Caught) (r : Ended U) : Type 0 where
    pub stays : r.route ≡ none
    pub told : (m : Text) × (r.err ≡ some (format_auth_error AuthError.login (caught m)))

  ended-cases :
      (caught : Text → Caught) (l : LocationState) (self : Call U) (r : AuthState U × Finish Unit)
      → (r.1 ≡ done tt → (u : U) × (r.0.user ≡ some u) × IsSession self u)
      → Entered l self (ended caught AuthError.login (from_of l) r)
        ⊎ Turned caught (ended caught AuthError.login (from_of l) r)
  ended-cases caught l self (s, done tt) h =
      inl (record { no_error = refl; goes_on = refl; signed_in = h refl })
  ended-cases caught l self (s, raised m) h = inr (record { stays = refl; told = (m, refl) })

  -- A login goes on to the page that was wanted, signed in as the user that the server names, or it
  -- stays, with the error that was thrown as it is told.
  pub on_login-Entered :
      (caught : Text → Caught) (l : LocationState) (answer self : Call U) (s : AuthState U)
      → Entered l self (on_login caught l answer self s)
        ⊎ Turned caught (on_login caught l answer self s)
  unfolding on_login
  on_login-Entered caught l answer self s =
      ended-cases caught l self (login answer self s)
        (λ e. ((login-SignsIn answer self s).signed_in e).1)
