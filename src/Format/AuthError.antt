-- ===== src/Format/AuthError.antt =====
-- frontend/src/format/authError.ts.
pub mod Laws
use revlm.Api.{or_text}
use revlm.Base.{
  ℕ, ◌+◌, ◌-◌, Bool, true, false, not, ◌&&◌, ◌||◌, Option, none, some, [], ◌++◌, map, leb, ◌==◌,
  if◌then◌else◌, or_else, length, take, Text, codes, text_eq, is_empty, trim, includes,
}

pub record PageError : Type 0 where
  pub summary : Text
  pub detail : Option Text

-- `v.slice(0, Math.max(0, maxLen - 1)) + '…'` where `v` is too long.
unfoldable pub truncate_text : Text → ℕ → Text
truncate_text v max_len = if leb (length v) max_len then v else take (max_len - 1) v ++ codes "…"

-- What is caught: a text; an object with, where they are texts, the message of the response's body
-- and its own message (of an `Error` the latter is a text); or anything else.
pub data Caught : Type 0 where
  text : Text → Caught
  object : (response_message message : Option Text) → (is_error : Bool) → Caught
  other : Caught

-- The last two returns of `toErrorMessage`.
abbrev error_message : Bool → Text → Text
error_message true message = message
error_message false message = []

unfoldable to_error_message : Caught → Text
to_error_message (text s) = s
to_error_message (object response_message message is_error) =
    let response = trim (or_else response_message []) in
    let own = trim (or_else message []) in
    if not (is_empty response)
    then response
    else if not (is_empty own)
    then own
    else error_message is_error (or_else message [])
to_error_message other = []

pub data Action : Type 0 where
  login : Action
  sign_up : Action

abbrev pub action_text : Action → Text
action_text login = codes "登录"
action_text sign_up = codes "注册"

-- `toLowerCase`, as far as the phrases that are looked for can tell: the Kelvin sign becomes k.
abbrev lower_char : ℕ → ℕ
lower_char c = if leb b'A' c && leb c b'Z' then c + 32 else if c == 0x212a then b'k' else c

unfoldable pub raw_text : Action → Caught → Text
unfolding to_error_message
raw_text action err = or_text (trim (to_error_message err)) (action_text action ++ codes "失败")

unfoldable is_network : Text → Bool
is_network raw =
    let compact = map lower_char raw in
    includes compact (codes "network error")
    || includes compact (codes "request failed with status code")
    || includes compact (codes "timeout")

unfoldable pub names_failure : Action → Text → Bool
names_failure action raw =
    includes raw (action_text action) || includes raw (codes "失败") || includes raw (codes "错误")

unfoldable pub login_summary : Text → Text
login_summary raw =
    if includes raw (codes "邮箱/账号名或密码错误")
    then codes "登录失败：账号或密码不正确"
    else if includes raw (codes "无效的参数")
    then codes "请输入正确的账号与密码"
    else if not (names_failure login raw)
    then codes "登录失败：" ++ raw
    else raw

unfoldable pub sign_up_summary : Text → Text
sign_up_summary raw =
    if includes raw (codes "账号名已被占用")
    then codes "注册失败：账号名已被占用"
    else if includes raw (codes "邮箱或密码不能为空")
    then codes "注册失败：邮箱或密码不能为空"
    else if includes raw (codes "无效的参数")
    then codes "注册失败：请检查填写内容"
    else if includes raw (codes "创建用户失败")
    then codes "注册失败：创建账号失败，请稍后重试"
    else if not (names_failure sign_up raw)
    then codes "注册失败：" ++ raw
    else raw

abbrev action_summary : Action → Text → Text
action_summary login raw = login_summary raw
action_summary sign_up raw = sign_up_summary raw

unfoldable pub summary_of : Action → Text → Text
unfolding is_network
summary_of action raw =
    if is_network raw then codes "网络异常或服务不可用，请稍后重试" else action_summary action raw

unfoldable pub format_auth_error : Action → Caught → PageError
format_auth_error action err =
    let raw = raw_text action err in
    let summary = summary_of action raw in
    record {
      summary = summary;
      detail = if not (text_eq summary raw) then some (truncate_text raw 400) else none;
    }
