-- ===== src/Users/Forms/Laws.antt =====
-- When a form can be submitted.
use revlm.Base.{
  ◌≡◌, refl, sym, ap, ◌∙◌, Bool, true, false, ◌&&◌, none, some, List, [], ◌∷◌, ◌++◌, map, arith,
  inl, inr, Bool-cases, Option-cases, Text, codes, is_empty, All,
}
use revlm.Api.Http.{Request}
use revlm.Users.Forms.{
  Values, ConfigField, value_at, is_blank, validated, field_error, first_error, validation_error,
  ConfigTemplate, Form, send_if, submitted,
}

-- A field whose value is there if it has to be, and passes its test.
pub record IsFilled (values : Values) (f : ConfigField) : Type 0 where
  pub given : f.required ≡ true → is_blank (value_at f.key values) ≡ false
  pub passes : validated f.validate (value_at f.key values) values ≡ []

label-ne-nil : (label : Text) → is_empty (label ++ codes " 不能为空") ≡ false
label-ne-nil [] = refl
label-ne-nil (c ∷ label) = refl

empty_eq : (s : Text) → is_empty s ≡ true → s ≡ []
empty_eq [] h = refl
empty_eq (c ∷ s) h = cc

true-ne-false : (b : Bool) → b ≡ true → b ≡ false → ⊥
true-ne-false b h k = cc

not_both : (a b : Bool) → (a && b) ≡ false → a ≡ true → b ≡ false
not_both a b h k = ground arith

not_missing : (a b : Bool) → (a ≡ true → b ≡ false) → (a && b) ≡ false
not_missing true b h = h refl
not_missing false b h = refl

field_error-IsFilled :
    (values : Values) (f : ConfigField) → is_empty (field_error values f) ≡ true → IsFilled values f
unfolding field_error
field_error-IsFilled values f h =
    elim (Bool-cases (f.required && is_blank (value_at f.key values))) [
      | inl missing ↦ absurd (true-ne-false _ (rw missing at h) (label-ne-nil f.label))
      | inr there ↦ record {
        given = λ r. not_both f.required _ there r;
        passes = empty_eq _ (rw there at h);
      }
    ]

IsFilled-field_error :
    (values : Values) (f : ConfigField) → IsFilled values f → field_error values f ≡ []
unfolding field_error
IsFilled-field_error values f h = rw (not_missing f.required _ h.given) h.passes

some-ne-none : (e : Text) → some e ≡ none → ⊥
some-ne-none e h = cc

none-ne-some : (r : Request) → none ≡ some r → ⊥
none-ne-some r h = cc

pub errors-IsFilled :
    (values : Values) (fields : List ConfigField)
    → first_error (map (field_error values) fields) ≡ none
    → All (IsFilled values) fields
unfolding first_error
errors-IsFilled values [] h = tt
errors-IsFilled values (f ∷ fs) h = elim (Bool-cases (is_empty (field_error values f))) [
  | inl fine ↦ (field_error-IsFilled values f fine, errors-IsFilled values fs (rw fine at h))
  | inr wrong ↦ absurd (some-ne-none _ (rw wrong at h))
]

IsFilled-errors :
    (values : Values) (fields : List ConfigField)
    → All (IsFilled values) fields
    → first_error (map (field_error values) fields) ≡ none
unfolding first_error
IsFilled-errors values [] h = refl
IsFilled-errors values (f ∷ fs) h =
    rw (IsFilled-field_error values f h.0) (IsFilled-errors values fs h.1)

-- A form that is not being saved sends the request of its values if every field is filled, and nothing
-- if some field is not.
pub submitted-IsFilled :
    (t : ConfigTemplate) (form : Form)
    → form.saving ≡ false
    → (All (IsFilled form.values) t.fields → submitted t form ≡ some (t.request form.values))
      × (¬ All (IsFilled form.values) t.fields → submitted t form ≡ none)
unfolding submitted validation_error
submitted-IsFilled t form h = (
  λ filled.
      ap (λ e. send_if e form.saving (t.request form.values))
        (IsFilled-errors form.values t.fields filled)
      ∙ ap (λ b. send_if none b (t.request form.values)) h,
  λ open_field. elim (Option-cases (validation_error t.fields form.values)) [
    | inl fine ↦ absurd (open_field (errors-IsFilled form.values t.fields fine))
    | inr (e, wrong) ↦ ap (λ o. send_if o form.saving (t.request form.values)) wrong
  ],
)

-- What is sent is the request of the values, and then every field is filled.
pub IsFilled-of_submitted :
    (t : ConfigTemplate) (form : Form) (r : Request)
    → submitted t form ≡ some r
    → All (IsFilled form.values) t.fields × (t.request form.values ≡ r)
unfolding submitted validation_error
IsFilled-of_submitted t form r h = elim (Option-cases (validation_error t.fields form.values)) [
  | inl fine ↦ (
    errors-IsFilled form.values t.fields fine,
    sent form.saving (sym (ap (λ e. send_if e form.saving (t.request form.values)) fine) ∙ h),
  )
  | inr (e, wrong) ↦
      absurd
        (none-ne-some r (sym (ap (λ o. send_if o form.saving (t.request form.values)) wrong) ∙ h))
]
  where
    sent :
        (saving : Bool)
        → send_if none saving (t.request form.values) ≡ some r
        → t.request form.values ≡ r
    sent true e = cc
    sent false e = cc
