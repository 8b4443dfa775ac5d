-- ===== src/Users/Templates.antt =====
-- The templates of frontend/src/components/admin/configTemplates.ts: their fields, tests and requests.
-- `lower` is String.prototype.toLowerCase. The labels and hints that are only shown are left out, except
-- the label that a message names.
pub mod Laws
use revlm.Base.{
  ℕ, Bool, true, false, ◌&&◌, none, some, List, [], ◌∷◌, if◌then◌else◌, String, Text, codes,
  is_empty, is_digit, ◌==◌,
}
use revlm.Api.Http.{Request}
use revlm.Api.Users.{
  CreateAdminUserRequest, create_admin_user, reset_admin_user_password, add_admin_user_balance,
  update_email, update_password,
}
use revlm.Users.Forms.{
  ConfigValue, text, Values, ConfigField, ConfigTemplate, string_value, trim_string, value_at,
  defaults_from_fields,
}

abbrev pub all_digits : Text → Bool
all_digits [] = true
all_digits (c ∷ s) = is_digit c && all_digits s

abbrev pub some_digits : Text → Bool
some_digits [] = false
some_digits (c ∷ s) = is_digit c && all_digits s

-- `\d*(?:\.\d+)?` to the end.
abbrev pub rest_decimal : Text → Bool
rest_decimal [] = true
rest_decimal (c ∷ s) = if is_digit c then rest_decimal s else (c == b'.') && some_digits s

-- The test `/^\d+(?:\.\d+)?$/`
unfoldable pub is_decimal : Text → Bool
is_decimal [] = false
is_decimal (c ∷ s) = is_digit c && rest_decimal s

unfoldable pub required_decimal : ConfigValue → Text
unfolding is_decimal
required_decimal v =
    let s = trim_string v in
    if is_empty s then codes "金额不能为空" else if is_decimal s then [] else codes "只能填写非负数字"

unfoldable pub normalize_email : (Text → Text) → ConfigValue → Text
normalize_email lower v = lower (trim_string v)

abbrev field : String → String → ConfigField
field key label = record {
  key = codes key;
  label = codes label;
  required = true;
  parse = none;
  validate = none;
}

abbrev at_key : String → Values → ConfigValue
at_key key values = value_at (codes key) values

unfoldable account_email_template : (Text → Text) → ConfigTemplate
unfolding normalize_email value_at
account_email_template lower = record {
  fields = field "email" "新邮箱" ∷ [];
  defaults = defaults_from_fields (field "email" "新邮箱" ∷ []);
  request = λ values. update_email (normalize_email lower (at_key "email" values));
  submit = codes "更新并重新登录";
}

abbrev password_fields : List ConfigField
password_fields = field "old_password" "旧密码" ∷ field "new_password" "新密码" ∷ []

unfoldable account_password_template : ConfigTemplate
unfolding trim_string value_at
account_password_template = record {
  fields = password_fields;
  defaults = defaults_from_fields password_fields;
  request = λ values.
      update_password (trim_string (at_key "old_password" values))
        (trim_string (at_key "new_password" values));
  submit = codes "更新并重新登录";
}

abbrev create_fields : List ConfigField
create_fields =
    field "email" "邮箱" ∷ field "username" "账号名" ∷ field "password" "初始密码" ∷ field "role" "角色" ∷ []

unfoldable create_admin_user_template : (Text → Text) → ConfigTemplate
unfolding normalize_email trim_string string_value value_at
create_admin_user_template lower = record {
  fields = create_fields;
  defaults = (codes "role", text (codes "user")) ∷ defaults_from_fields create_fields;
  request = λ values. create_admin_user (record {
    email = normalize_email lower (at_key "email" values);
    username = trim_string (at_key "username" values);
    password = string_value (at_key "password" values);
    role = some (string_value (at_key "role" values));
  });
  submit = codes "创建";
}

unfoldable reset_admin_user_password_template : ℕ → ConfigTemplate
unfolding string_value value_at
reset_admin_user_password_template id = record {
  fields = field "password" "新密码" ∷ [];
  defaults = defaults_from_fields (field "password" "新密码" ∷ []);
  request = λ values. reset_admin_user_password id (string_value (at_key "password" values));
  submit = codes "重置";
}

abbrev pub amount_field : ConfigField
amount_field = record (field "amount_usd" "增加金额 (USD)") {
  validate = some (λ v values. required_decimal v);
}

unfoldable pub add_admin_user_balance_template : ℕ → ConfigTemplate
unfolding trim_string value_at
add_admin_user_balance_template id = record {
  fields = amount_field ∷ [];
  defaults = defaults_from_fields (amount_field ∷ []);
  request = λ values. add_admin_user_balance id (trim_string (at_key "amount_usd" values));
  submit = codes "确认加余额";
}
