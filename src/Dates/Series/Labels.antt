-- ===== src/Dates/Series/Labels.antt =====
-- The labels of the filled series, and the print of a date.
use revlm.Base.{
  ℕ, zero, suc, ◌+◌, ◌-◌, ◌*◌, ◌/◌, ◌%◌, ◌≤◌, ◌≡◌, refl, ap, ◌∙◌, inl, inr, true, false, none, some,
  List, [], ◌∷◌, ◌++◌, map, arith, if◌then◌else◌, Option-cases, length, take, All-append,
  length-take-le, Text, text_eq, text_eq_iff, is_space, is_space_between, trim, is_digit, NoSpace,
  trim_of_NoSpace, trim_full, length-trim-le,
}
use revlm.Dates.Calendar.{Day, day_number, IsDay}
use revlm.Dates.Calendar.Steps.{month_length_bounds}
use revlm.Dates.Series.{
  Point, normalize_daily_bucket_label, at, new_date, read_date, digit, parse_date_only_utc,
  format_date_only_utc, two_digits, normalize_point, fill_daily_buckets,
}
use revlm.Dates.Series.Spec.{days, last_of}
use revlm.Dates.Series.Laws.{shown, fill_daily_buckets-days}

NoSpace-two_digits : (n : ℕ) → NoSpace (two_digits n)
NoSpace-two_digits n = (
  is_space_between (b'0' + n / 10 % 10) (omega arith) (omega arith),
  (is_space_between (b'0' + n % 10) (omega arith) (omega arith), tt),
)

NoSpace-format_date : (d : Day) → NoSpace (format_date_only_utc d)
unfolding format_date_only_utc
NoSpace-format_date d =
    let dash = is_space_between b'-' (omega arith) (omega arith) in
    let first = is_space_between (b'0' + d.year / 1000 % 10) (omega arith) (omega arith) in
    let second = is_space_between (b'0' + d.year / 100 % 10) (omega arith) (omega arith) in
    let month_day =
      All-append (λ c. is_space c ≡ false) (two_digits d.month) (b'-' ∷ two_digits d.day)
        (NoSpace-two_digits d.month) (dash, NoSpace-two_digits d.day) in
    (
      first,
      (
        second,
        All-append (λ c. is_space c ≡ false) (two_digits (d.year % 100))
            (b'-' ∷ two_digits d.month ++ b'-' ∷ two_digits d.day)
            (NoSpace-two_digits (d.year % 100)) (dash, month_day),
      ),
    )

new_date_of_IsDay : (d : Day) → IsDay d → new_date d.year d.month d.day ≡ at d
unfolding new_date
new_date_of_IsDay d v = ground (arith, month_length_bounds d.year d.month)

is_digit_lem : (n : ℕ) → is_digit (b'0' + n % 10) ≡ true
is_digit_lem n = ground arith

year_digits :
    (y : ℕ)
    → y ≤ 9999
    → 1000 * digit (b'0' + y / 1000 % 10)
        + 100 * digit (b'0' + y / 100 % 10)
        + 10 * digit (b'0' + y % 100 / 10 % 10)
        + digit (b'0' + y % 100 % 10)
      ≡ y
year_digits y h = omega arith

pair_digits : (n : ℕ) → n ≤ 99 → 10 * digit (b'0' + n / 10 % 10) + digit (b'0' + n % 10) ≡ n
pair_digits n h = omega arith

read_date-format_date :
    (d : Day) → IsDay d → d.year ≤ 9999 → read_date (format_date_only_utc d) ≡ some (at d)
unfolding read_date format_date_only_utc
read_date-format_date d v h =
    let bounds = month_length_bounds d.year d.month in
    rw
      (
        is_digit_lem (d.year / 1000),
        is_digit_lem (d.year / 100),
        is_digit_lem (d.year % 100 / 10),
        is_digit_lem (d.year % 100),
        is_digit_lem (d.month / 10),
        is_digit_lem d.month,
        is_digit_lem (d.day / 10),
        is_digit_lem d.day,
        year_digits d.year h,
        pair_digits d.month (omega arith),
        pair_digits d.day (omega arith),
      )
      (ap some (new_date_of_IsDay d v))

-- The print of a day, up to the year 9999, is read back as the day.
pub parse-format_date :
    (d : Day) → IsDay d → d.year ≤ 9999 → parse_date_only_utc (format_date_only_utc d) ≡ some (at d)
unfolding parse_date_only_utc
parse-format_date d v h =
    rw (trim_of_NoSpace (format_date_only_utc d) (NoSpace-format_date d))
      (read_date-format_date d v h)

length-format_date : (d : Day) → length (format_date_only_utc d) ≡ 10
unfolding format_date_only_utc
length-format_date d = refl

take_all : (n : ℕ) (s : Text) → length s ≤ n → take n s ≡ s
take_all zero [] h = refl
take_all zero (c ∷ s) h = absurd (omega arith)
take_all (suc n) [] h = refl
take_all (suc n) (c ∷ s) h = ap (◌∷◌ c) (take_all n s (omega arith))

le-length_of_take : (n : ℕ) (s : Text) → length (take n s) ≡ n → n ≤ length s
le-length_of_take zero s h = omega arith
le-length_of_take (suc n) [] h = absurd (omega arith)
le-length_of_take (suc n) (c ∷ s) h = omega (arith, le-length_of_take n s (omega arith))

length-label-le : (b : Text) → length (normalize_daily_bucket_label b) ≤ 10
unfolding normalize_daily_bucket_label
length-label-le b = length-take-le 10 (trim b)

-- A label of ten characters is the whole text.
full_label :
    (x k : Text) → length x ≤ 10 → length k ≡ 10 → normalize_daily_bucket_label x ≡ k → x ≡ k
unfolding normalize_daily_bucket_label
full_label x k short full e =
    let full_take : length (take 10 (trim x)) ≡ 10 = ap length e ∙ full in
    let long = le-length_of_take 10 (trim x) full_take in
    let same = trim_full x (omega (arith, length-trim-le x)) in rw (same, take_all 10 x short) at e

module _ {ℓ} {A : Type ℓ} where
  label_of_choice :
      (q : Point A) (k : Text) (p : Point A)
      → (if text_eq (normalize_daily_bucket_label q.bucket) k then some q else none) ≡ some p
      → (normalize_daily_bucket_label q.bucket ≡ k) × (q ≡ p)
  label_of_choice q k p h = ground (arith, text_eq_iff (normalize_daily_bucket_label q.bucket) k)

  last_of-bucket :
      (k : Text) (ps : List (Point A)) (p : Point A)
      → length k ≡ 10
      → last_of k (map normalize_point ps) ≡ some p
      → p.bucket ≡ k
  unfolding last_of
  last_of-bucket k [] p full h = cc
  last_of-bucket k (q ∷ ps) p full h = elim (Option-cases (last_of k (map normalize_point ps))) [
    | inl missing ↦
        let (hit, same) = label_of_choice (normalize_point q) k p (rw missing at h) in
        rw (← same) (full_label (normalize_point q).bucket k (length-label-le q.bucket) full hit)
    | inr (r, found) ↦ last_of-bucket k ps p full (found ∙ (rw found at h))
  ]

  module _ (points : List (Point A)) (zero_point : Text → Point A)
      (labelled : (k : Text) → (zero_point k).bucket ≡ k) where
    shown-bucket : (d : Day) → (shown points zero_point d).bucket ≡ format_date_only_utc d
    unfolding shown
    shown-bucket d =
        elim (Option-cases (last_of (format_date_only_utc d) (map normalize_point points))) [
          | inl missing ↦ rw missing (labelled (format_date_only_utc d))
          | inr (p, found) ↦
              rw found
                (last_of-bucket (format_date_only_utc d) points p (length-format_date d) found)
        ]

    map-shown :
        (ds : List Day)
        → map (λ p. p.bucket) (map (shown points zero_point) ds) ≡ map format_date_only_utc ds
    map-shown [] = refl
    map-shown (d ∷ ds) = cc (shown-bucket d, map-shown ds)

    -- Between two dates in order the labels of the result are the days from the start to the end, each
    -- once and in order, if the zero point of a day has the day for its label.
    pub fill_daily_buckets-labels :
        (start end : Text) (s e : Day)
        → parse_date_only_utc start ≡ some (at s)
        → parse_date_only_utc end ≡ some (at e)
        → day_number s ≤ day_number e
        → (out : List (Point A)) × (fill_daily_buckets points start end zero_point ≡ some out)
          × (map (λ p. p.bucket) out
              ≡ map format_date_only_utc (days (day_number e + 1 - day_number s) s))
    fill_daily_buckets-labels start end s e ps pe le =
        let ds = days (day_number e + 1 - day_number s) s in
        (
          map (shown points zero_point) ds,
          fill_daily_buckets-days points zero_point start end s e ps pe le,
          map-shown ds,
        )
