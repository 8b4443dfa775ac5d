-- ===== src/Users/Forms.antt =====
-- frontend/src/components/admin/ConfigForm.tsx: a form by a template, its values, what is wrong with
-- them, and a submission. An object of values is an association list; a key that it lacks is undefined,
-- which the code treats as null. A number stands as its print.
pub mod Laws
use revlm.Base.{
  Bool, true, false, ◌&&◌, Option, none, some, List, [], ◌∷◌, ◌++◌, map, if◌then◌else◌, or_else,
  Text, codes, text_eq, is_empty, trim,
}
use revlm.Api.{Reply, Outcome, loaded, failed, settle}
use revlm.Api.Http.{Request}
use revlm.Dates.Series.{map_get, map_set}

pub data ConfigValue : Type 0 where
  text : Text → ConfigValue
  number : Text → ConfigValue
  flag : Bool → ConfigValue
  null : ConfigValue

abbrev pub Values : Type 0
Values = List (Text × ConfigValue)

-- `value == null ? '' : String(value)`
unfoldable pub string_value : ConfigValue → Text
string_value (text t) = t
string_value (number print) = print
string_value (flag true) = codes "true"
string_value (flag false) = codes "false"
string_value null = []

unfoldable pub trim_string : ConfigValue → Text
unfolding string_value
trim_string v = trim (string_value v)

unfoldable pub is_blank : ConfigValue → Bool
unfolding trim_string
is_blank v = is_empty (trim_string v)

pub record ConfigField : Type 0 where
  pub key : Text
  pub label : Text
  pub required : Bool
  pub parse : Option (Text → Values → ConfigValue)
  pub validate : Option (ConfigValue → Values → Text)

unfoldable pub value_at : Text → Values → ConfigValue
unfolding map_get
value_at key values = or_else (map_get key values) null

-- `read` is Number, of a text that is not blank.
abbrev by_kind : (Text → Text) → ConfigValue → Text → ConfigValue
by_kind read (number print) raw = if is_empty (trim raw) then null else number (read raw)
by_kind read (flag b) raw = flag (text_eq raw (codes "true"))
by_kind read (text t) raw = text raw
by_kind read null raw = text raw

abbrev parse_by :
    Option (Text → Values → ConfigValue) → (Text → Text) → ConfigValue → Text → Values → ConfigValue
parse_by (some parse) read current raw values = parse raw values
parse_by none read current raw values = by_kind read current raw

unfoldable pub parse_control_value : (Text → Text) → ConfigField → Text → Values → ConfigValue
unfolding value_at
parse_control_value read f raw values = parse_by f.parse read (value_at f.key values) raw values

unfoldable pub set_value : (Text → Text) → ConfigField → Text → Values → Values
unfolding parse_control_value map_set
set_value read f raw values = map_set f.key (parse_control_value read f raw values) values

abbrev pub validated : Option (ConfigValue → Values → Text) → ConfigValue → Values → Text
validated none v values = []
validated (some validate) v values = validate v values

-- What is wrong with a field, or the empty text.
unfoldable pub field_error : Values → ConfigField → Text
unfolding is_blank value_at
field_error values f =
    let v = value_at f.key values in
    if f.required && is_blank v then f.label ++ codes " 不能为空" else validated f.validate v values

-- The first text that is not empty.
unfoldable pub first_error : List Text → Option Text
first_error [] = none
first_error (e ∷ es) = if is_empty e then first_error es else some e

unfoldable pub validation_error : List ConfigField → Values → Option Text
unfolding first_error field_error
validation_error fields values = first_error (map (field_error values) fields)

-- The template: its fields, the values of a new form, and the request that values make.
pub record ConfigTemplate : Type 0 where
  pub fields : List ConfigField
  pub defaults : Values
  pub request : Values → Request
  pub submit : Text

-- `defaultsFromFields`, with the defaults that are given in front.
unfoldable pub defaults_from_fields : List ConfigField → Values
defaults_from_fields [] = []
defaults_from_fields (f ∷ fs) = (f.key, text []) ∷ defaults_from_fields fs

pub record Form : Type 0 where
  pub values : Values
  pub saving : Bool

abbrev pub send_if : Option Text → Bool → Request → Option Request
send_if (some e) saving r = none
send_if none saving r = if saving then none else some r

-- The button is off while something is wrong or a saving runs; else a submission sends what the
-- template makes of the values.
unfoldable pub submitted : ConfigTemplate → Form → Option Request
unfolding validation_error
submitted t form =
    send_if (validation_error t.fields form.values) form.saving (t.request form.values)

-- The outcome that the page is told, by the error's text or by the data.
unfoldable pub form_outcome : {A : Type 0} → Reply A → Outcome A
form_outcome reply = settle (codes "操作失败") reply

abbrev ended : {A : Type 0} → Outcome A → Bool → ConfigTemplate → Form → Form
ended (loaded d) reset t form = record {
  values = if reset then t.defaults else form.values;
  saving = false;
}
ended (failed message) reset t form = record { values = form.values; saving = false }

-- The form behind the answer; `reset` is `resetOnSaved ?? !initialValues`.
unfoldable pub after_submit : {A : Type 0} → Bool → ConfigTemplate → Reply A → Form → Form
unfolding form_outcome
after_submit reset t reply form = ended (form_outcome reply) reset t form
