-- ===== src/Users/Templates/Laws.antt =====
-- Which amounts the form of a balance sends.
use revlm.Base.{
  ℕ, ◌≡◌, refl, sym, ap, ◌∙◌, ◌≢◌, Bool, true, false, ◌&&◌, Option, none, some, [], ◌∷◌, arith, inl,
  inr, Bool-cases, Text, codes, is_digit, IsDigit, All, ◌==◌, ==_iff, or_else,
}
use revlm.Api.Http.{Request}
use revlm.Api.Users.{add_admin_user_balance}
use revlm.Format.Money.Amounts.{Amount, IsAmount, amount_text, body_text}
use revlm.Users.Forms.{ConfigValue, value_at, trim_string, Form, submitted}
use revlm.Users.Forms.Laws.{IsFilled-of_submitted}
use revlm.Users.Templates.{
  all_digits, some_digits, rest_decimal, is_decimal, required_decimal,
  add_admin_user_balance_template,
}

and_left : (a b : Bool) → (a && b) ≡ true → a ≡ true
and_left a b h = ground arith

and_right : (a b : Bool) → (a && b) ≡ true → b ≡ true
and_right a b h = ground arith

all_digits-All : (s : Text) → all_digits s ≡ true → All IsDigit s
all_digits-All [] h = tt
all_digits-All (c ∷ s) h = (ground arith, all_digits-All s (ground arith))

some_digits-All : (s : Text) → some_digits s ≡ true → All IsDigit s × (s ≢ [])
some_digits-All [] h = cc
some_digits-All (c ∷ s) h = ((ground arith, all_digits-All s (ground arith)), λ e. cc)

-- Digits, and a fraction with at least one digit where there is one.
pub record IsPrice (a : Amount) : Type 0 where
  pub positive : a.negative ≡ false
  pub digits : IsAmount a
  pub fraction : a.fraction ≢ some []

-- What stands behind the first digit.
abbrev IsRest : Text → Type 0
IsRest s =
    (whole : Text) × (fraction : Option Text) × (s ≡ body_text whole fraction)
    × All IsDigit whole
    × All IsDigit (or_else fraction [])
    × (fraction ≢ some [])

IsRest-cons : (c : ℕ) (s : Text) → IsDigit c → IsRest s → IsRest (c ∷ s)
IsRest-cons c s d (whole, none, e, w, f, n) = (c ∷ whole, none, ap (◌∷◌ c) e, (d, w), f, n)
IsRest-cons c s d (whole, some g, e, w, f, n) = (c ∷ whole, some g, ap (◌∷◌ c) e, (d, w), f, n)

IsRest-fraction : (c : ℕ) (s : Text) → c ≡ b'.' → All IsDigit s → s ≢ [] → IsRest (c ∷ s)
IsRest-fraction c s e d n = ([], some s, ap (λ k. k ∷ s) e, tt, d, λ h. n (some-injective h))
  where
    some-injective : some s ≡ some [] → s ≡ []
    some-injective h = cc

rest_decimal-IsRest : (s : Text) → rest_decimal s ≡ true → IsRest s
rest_decimal-IsRest [] h = ([], none, refl, tt, tt, λ e. cc)
rest_decimal-IsRest (c ∷ s) h = elim (Bool-cases (is_digit c)) [
  | inl d ↦ IsRest-cons c s (ground arith) (rest_decimal-IsRest s (rw d at h))
  | inr other ↦
      let k : ((c == b'.') && some_digits s) ≡ true = rw other at h in
      let (digits, given) = some_digits-All s (and_right (c == b'.') _ k) in
      IsRest-fraction c s ((==_iff c b'.').0 (and_left (c == b'.') _ k)) digits given
]

is_decimal-IsPrice :
    (s : Text) → is_decimal s ≡ true → (a : Amount) × IsPrice a × (s ≡ amount_text a)
unfolding is_decimal
is_decimal-IsPrice [] h = cc
is_decimal-IsPrice (c ∷ s) h =
    let (whole, fraction, e, w, f, n) = rest_decimal-IsRest s (and_right (is_digit c) _ h) in
    (
      record { negative = false; first = c; whole = whole; fraction = fraction },
      record {
        positive = refl;
        digits = record { first = ground arith; whole = w; fraction = f };
        fraction = n;
      },
      ap (◌∷◌ c) e ∙ cons-body_text c whole fraction,
    )
  where
    cons-body_text :
        (c : ℕ) (whole : Text) (fraction : Option Text)
        → c ∷ body_text whole fraction ≡ body_text (c ∷ whole) fraction
    cons-body_text c whole none = refl
    cons-body_text c whole (some g) = refl

required_decimal-is_decimal :
    (v : ConfigValue) → required_decimal v ≡ [] → is_decimal (trim_string v) ≡ true
unfolding required_decimal
required_decimal-is_decimal v h = ground arith

-- Whatever stands in the form of a balance: what it sends is an amount that is not negative, written as
-- digits with at most one point and with digits on both sides of it.
pub submitted-IsPrice :
    (id : ℕ) (form : Form) (r : Request)
    → submitted (add_admin_user_balance_template id) form ≡ some r
    → (a : Amount) × IsPrice a × (r ≡ add_admin_user_balance id (amount_text a))
unfolding add_admin_user_balance_template
submitted-IsPrice id form r h =
    let (filled, sent) = IsFilled-of_submitted (add_admin_user_balance_template id) form r h in
    let v = value_at (codes "amount_usd") form.values in
    let (a, price, e) =
      is_decimal-IsPrice (trim_string v) (required_decimal-is_decimal v filled.0.passes) in
    (a, price, sym sent ∙ ap (add_admin_user_balance id) e)
