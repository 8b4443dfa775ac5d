-- ===== src/Format/AuthError/Laws.antt =====
-- What the page shows of a failed login or registration.
use revlm.Base.{
  ℕ, ◌-◌, ◌≤◌, ◌<◌, ◌≡◌, refl, ◌↔◌, ◌⊎◌, inl, inr, true, none, some, ◌++◌, arith, leb, Bool-cases,
  length, take, length-append, length-take-le, Text, codes, text_eq_iff, suc, zero, ◌∷◌, ap,
  or_else, [],
}
use revlm.Format.AuthError.{
  truncate_text, Caught, Action, login, sign_up, action_text, raw_text, names_failure,
  login_summary, sign_up_summary, summary_of, format_auth_error,
}

take-take : (n k : ℕ) (v t : Text) → n ≤ length v → take n (take n v ++ t) ≡ take n v
take-take zero k v t h = refl
take-take (suc n) k [] t h = absurd (omega arith)
take-take (suc n) k (c ∷ v) t h = ap (◌∷◌ c) (take-take n k v t (omega arith))

-- A truncated text has at most the given length and begins as the text does, up to one character less
-- than that; and it is the text itself, unless that is longer.
pub truncate_text_bound :
    (v : Text) (n : ℕ)
    → 0 < n
    → (length (truncate_text v n) ≤ n)
      × (take (n - 1) (truncate_text v n) ≡ take (n - 1) v)
      × ((truncate_text v n ≡ v) ⊎ (n < length v))
unfolding truncate_text
truncate_text_bound v n h = elim (Bool-cases (leb (length v) n)) [
  | inl fits ↦ rw fits (ground arith, refl, inl refl)
  | inr long ↦ rw long (
    omega (arith, length-append (take (n - 1) v) (codes "…"), length-take-le (n - 1) v),
    take-take (n - 1) n v (codes "…") (ground arith),
    inr (ground arith),
  )
]

abbrev pub SaysFailure : Action → Text → Type 0
SaysFailure action s =
    (names_failure action s ≡ true) ⊎ ((s ≡ codes "网络异常或服务不可用，请稍后重试") ⊎ (s ≡ codes "请输入正确的账号与密码"))

failure_prefix :
    (action : Action) (s : Text) → names_failure action (action_text action ++ s) ≡ true
unfolding names_failure
failure_prefix login s = refl
failure_prefix sign_up s = refl

login-SaysFailure : (raw : Text) → SaysFailure login (login_summary raw)
unfolding login_summary
login-SaysFailure raw =
    ground
      (arith, failure_prefix login (codes "失败：" ++ raw), failure_prefix login (codes "失败：账号或密码不正确"))

sign_up-SaysFailure : (raw : Text) → SaysFailure sign_up (sign_up_summary raw)
unfolding sign_up_summary
sign_up-SaysFailure raw = ground (
  arith,
  failure_prefix sign_up (codes "失败：" ++ raw),
  failure_prefix sign_up (codes "失败：账号名已被占用"),
  failure_prefix sign_up (codes "失败：邮箱或密码不能为空"),
  failure_prefix sign_up (codes "失败：请检查填写内容"),
  failure_prefix sign_up (codes "失败：创建账号失败，请稍后重试"),
)

summary-SaysFailure : (action : Action) (raw : Text) → SaysFailure action (summary_of action raw)
unfolding summary_of
summary-SaysFailure login raw = ground (arith, login-SaysFailure raw)
summary-SaysFailure sign_up raw = ground (arith, sign_up-SaysFailure raw)

-- Whatever is caught, the summary says that the action failed: it names the action, a failure or an
-- error, or is one of two fixed messages. The detail is there exactly where the summary is not the
-- message that was caught, and is that message, cut to at most 400 characters.
pub format_auth_error_lem :
    (action : Action) (err : Caught)
    → SaysFailure action (format_auth_error action err).summary
      × (((format_auth_error action err).detail ≡ none)
          ↔ ((format_auth_error action err).summary ≡ raw_text action err))
      × (((format_auth_error action err).detail ≡ none)
          ⊎ ((format_auth_error action err).detail
              ≡ some (truncate_text (raw_text action err) 400)))
      × (length (or_else (format_auth_error action err).detail []) ≤ 400)
unfolding format_auth_error
format_auth_error_lem action err =
    let raw = raw_text action err in
    let summary = summary_of action raw in
    let same = text_eq_iff summary raw in
    (
      summary-SaysFailure action raw,
      ground (arith, same),
      ground arith,
      ground (arith, (truncate_text_bound raw 400 (omega arith)).0),
    )
