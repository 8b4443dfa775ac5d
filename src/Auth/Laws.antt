-- ===== src/Auth/Laws.antt =====
-- What a login, a registration and a guarded page come to.
use revlm.Base.{
  ◌≡◌, refl, ◌↔◌, inl, inr, Bool, true, false, Option, none, some, arith, Bool-cases, Text, codes,
  text_eq_iff,
}
use revlm.Api.{ApiResponse}
use revlm.Auth.Session.{
  Call, returned, rejected, Finish, done, raised, AuthState, children, user_of, set_loading,
  keep_user, need_user, confirm, sign_in, refresh_internal, refresh, login, register, require_auth,
  guard_user,
}

-- The server's answer is a success.
pub record IsAccepted {U : Type 0} (c : Call U) : Type 0 where
  pub response : ApiResponse U
  pub is_answer : c ≡ returned (some response)
  pub success : response.success ≡ true

-- The server's answer names `u` as the user of the session.
pub record IsSession {U : Type 0} (c : Call U) (u : U) : Type 0 where
  pub accepted : IsAccepted c
  pub named : accepted.response.body ≡ some u

-- What a sign-in comes to, of `s` the state before and of `r` its end.
pub record SignsIn {U : Type 0} (answer self : Call U) (s : AuthState U)
    (r : AuthState U × Finish Unit) : Type 0 where
  pub idle : r.0.loading ≡ false
  pub booting : r.0.booting ≡ s.booting
  pub signed_in :
      r.1 ≡ done tt → IsAccepted answer × ((u : U) × (r.0.user ≡ some u) × IsSession self u)
  pub welcome :
      (u : U) → IsAccepted answer → IsSession self u → (r.0.user ≡ some u) × (r.1 ≡ done tt)
  pub refused : ¬ IsAccepted answer → r.0.user ≡ s.user

module _ {U : Type 0} where
  pub named_in_answer :
      (o : Option (ApiResponse U)) (u : U) → user_of o ≡ some u → IsSession (returned o) u
  named_in_answer none u e = cc
  named_in_answer (some r) u e = elim (Bool-cases r.success) [
    | inl success ↦ record {
      accepted = record { response = r; is_answer = refl; success = success };
      named = rw success at e;
    }
    | inr refused ↦ (let e' = rw refused at e in cc)
  ]

  user_of_session :
      (o : Option (ApiResponse U)) (u : U) → IsSession (returned o) u → user_of o ≡ some u
  user_of_session none u h = absurd (let e = h.accepted.is_answer in cc)
  user_of_session (some r) u h =
      let same : r ≡ h.accepted.response = let e = h.accepted.is_answer in cc in
      rw (same, h.accepted.success) h.named

  module _ (failure no_session : Text) (s : AuthState U) where
    booting-keep_user : (o : Option U) → (keep_user o (set_loading true s)).booting ≡ s.booting
    booting-keep_user none = refl
    booting-keep_user (some u) = refl

    ends : (o : Option U) → (need_user no_session (done o) ≡ done tt) → (u : U) × (o ≡ some u)
    ends none e = cc
    ends (some u) e = (u, refl)

    confirm-SignsIn :
        (r : ApiResponse U) (self : Call U)
        → r.success ≡ true
        → SignsIn
            (returned (some r))
            self
            s
            (confirm no_session self (keep_user r.body (set_loading true s)))
    unfolding refresh refresh_internal
    confirm-SignsIn r (returned o) h =
        let a : IsAccepted (returned (some r)) = record {
          response = r;
          is_answer = refl;
          success = h;
        } in
        record {
          idle = refl;
          booting = booting-keep_user r.body;
          signed_in =
              λ e. let (u, same) = ends (user_of o) e in (a, (u, same, named_in_answer o u same));
          welcome = λ u _ n. let same = user_of_session o u n in (same, rw same refl);
          refused = λ n. absurd (n a);
        }
    confirm-SignsIn r (rejected m) h =
        let a : IsAccepted (returned (some r)) = record {
          response = r;
          is_answer = refl;
          success = h;
        } in
        record {
          idle = refl;
          booting = booting-keep_user r.body;
          signed_in = λ e. cc;
          welcome = λ u _ n. let e = n.accepted.is_answer in cc;
          refused = λ n. absurd (n a);
        }

    not_accepted :
        (answer self : Call U) (message : Text)
        → ¬ IsAccepted answer
        → SignsIn answer self s (set_loading false s, raised message)
    not_accepted answer self message n = record {
      idle = refl;
      booting = refl;
      signed_in = λ e. cc;
      welcome = λ u a. absurd (n a);
      refused = λ _. refl;
    }

    sign_in-SignsIn :
        (answer self : Call U) → SignsIn answer self s (sign_in failure no_session answer self s)
    sign_in-SignsIn (rejected m) self =
        not_accepted (rejected m) self m (λ a. let e = a.is_answer in cc)
    sign_in-SignsIn (returned none) self =
        not_accepted (returned none) self failure (λ a. let e = a.is_answer in cc)
    sign_in-SignsIn (returned (some r)) self = elim (Bool-cases r.success) [
      | inl success ↦ simp success (confirm-SignsIn r self success)
      | inr refused ↦ simp refused (
          not_accepted (returned (some r)) self _
            (λ a. let e = a.is_answer in let f = a.success in cc))
    ]

  -- A login leaves the loading flag down and the boot flag as it was. It ends well only if the server
  -- accepted it and then named the user of its session, who is then the user of the console; if the
  -- server does both, it ends well; and where the server did not accept it the user stays as before.
  pub login-SignsIn :
      (answer self : Call U) (s : AuthState U) → SignsIn answer self s (login answer self s)
  unfolding login
  login-SignsIn answer self s = sign_in-SignsIn _ _ s answer self

  -- A registration keeps the same promises as a login.
  pub register-SignsIn :
      (answer self : Call U) (s : AuthState U) → SignsIn answer self s (register answer self s)
  unfolding register
  register-SignsIn answer self s = sign_in-SignsIn _ _ s answer self

  allowed :
      (role : U → Text) (root_only : Bool) (o : Option U)
      → (guard_user role root_only o ≡ children)
        ↔ ((u : U) × (o ≡ some u) × (root_only ≡ true → role u ≡ codes "root"))
  allowed role root_only none = (λ e. cc, λ (u, e, _). cc)
  allowed role root_only (some u) = (
    λ e. (u, refl, λ root. ground (arith, text_eq_iff (role u) (codes "root"))),
    λ (v, e, root).
        let same : u ≡ v = cc in rw same (ground (arith, text_eq_iff (role v) (codes "root"))),
  )

  -- A guarded page is shown exactly if the boot is over, somebody is signed in and, where the page is
  -- for the root user alone, the user's role is root.
  pub require_auth-children :
      (role : U → Text) (root_only : Bool) (s : AuthState U)
      → (require_auth role root_only s ≡ children) ↔ (
          (s.booting ≡ false)
          × ((u : U) × (s.user ≡ some u) × (root_only ≡ true → role u ≡ codes "root")))
  unfolding require_auth
  require_auth-children role root_only s = ground (arith, allowed role root_only s.user)
