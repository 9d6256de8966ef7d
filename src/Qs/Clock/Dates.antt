-- ===== src/Qs/Clock/Dates.antt =====
-- The date and time of crates/bsrs/src/qs/state.rs counts the seconds since 1970.
use bsrs.Prelude.{
  ℕ, zero, suc, ◌+◌, ◌-◌, ◌*◌, ◌/◌, ◌%◌, ◌^◌, ◌<◌, ◌≤◌, ◌≡◌, refl, ap, ◌∙◌, inl, inr, true, some,
  List, [], ◌∷◌, arith, ltb, ltb→lt, lt→ltb, length, get_elem?, take, Bool-cases,
}
use bsrs.Prelude.Rows.{ltb-ge}
use bsrs.Qs.Clock.{
  i32_limit, Ymdhms, is_leap, days_in_year, month_days, find_year, find_month, in_year,
  secs_to_ymdhms,
}

abbrev pub sum : List ℕ → ℕ
sum [] = 0
sum (x ∷ xs) = x + sum xs

-- The days of n years, from the year y on.
unfoldable pub days_of_years : ℕ → ℕ → ℕ
days_of_years zero y = 0
days_of_years (suc n) y = days_in_year y + days_of_years n (suc y)

sum-month_days : (y : ℕ) → sum (month_days y) ≡ days_in_year y
unfolding month_days days_in_year
sum-month_days y = elim (Bool-cases (is_leap y)) [ inl e ↦ rw e refl | inr e ↦ rw e refl ]

days_in_year-long : (y : ℕ) → 365 ≤ days_in_year y
unfolding days_in_year
days_in_year-long y = ground arith

find_year-counts :
    (fuel y d : ℕ)
    → d < 365 * fuel
    → y + fuel ≤ i32_limit
    → (n : ℕ) × (r : ℕ) × (find_year fuel y d ≡ some (y + n, r))
      × (days_of_years n y + r ≡ d)
      × (r < days_in_year (y + n))
unfolding find_year days_of_years
find_year-counts zero y d h b = absurd (omega arith)
find_year-counts (suc fuel) y d h b = elim (Bool-cases (ltb d (days_in_year y))) [
  | inl e ↦
      let z : y + 0 ≡ y = omega arith in
      (0, d, rw e (rw z refl), omega arith, rw z (ltb→lt d (days_in_year y) e))
  | inr e ↦
      let (n, r, e1, e2, e3) =
        find_year-counts fuel (suc y) (d - days_in_year y)
          (omega (arith, days_in_year-long y, ltb-ge d (days_in_year y) e)) (omega (arith, b)) in
      let f : ltb (suc y) i32_limit ≡ true =
        lt→ltb (suc y) i32_limit
          (omega (arith, b, h, days_in_year-long y, ltb-ge d (days_in_year y) e)) in
      let z : y + suc n ≡ suc y + n = omega arith in
      (suc n, r, rw e (rw f (rw z e1)), omega (arith, e2, ltb-ge d (days_in_year y) e), rw z e3)
]

find_month-counts :
    (ms : List ℕ) (mo d : ℕ)
    → d < sum ms
    → (k : ℕ) × (r : ℕ) × (md : ℕ) × (find_month ms mo d ≡ (mo + k, r))
      × (sum (take k ms) + r ≡ d)
      × (get_elem? ms k ≡ some md)
      × (r < md)
      × (k < length ms)
unfolding find_month
find_month-counts [] mo d h = absurd (omega arith)
find_month-counts (m ∷ ms) mo d h = elim (Bool-cases (ltb d m)) [
  | inl e ↦
      let z : mo + 0 ≡ mo = omega arith in
      (0, d, m, rw e (rw z refl), omega arith, refl, ltb→lt d m e, omega arith)
  | inr e ↦
      let (k, r, md, e1, e2, e3, e4, e5) =
        find_month-counts ms (suc mo) (d - m) (omega (arith, h, ltb-ge d m e)) in
      let z : mo + suc k ≡ suc mo + k = omega arith in
      (suc k, r, md, rw e (rw z e1), omega (arith, e2, ltb-ge d m e), e3, e4, omega (arith, e5))
]

-- The seconds of a civil date and time, `n` years after 1970.
abbrev pub seconds_of : ℕ → Ymdhms → ℕ
seconds_of n t =
    (days_of_years n 1970 + sum (take (t.month - 1) (month_days t.year)) + (t.day - 1)) * 86400
    + t.hour * 3600
    + t.minute * 60
    + t.second

-- The month has the day, and the day has the time.
abbrev pub IsCivil : ℕ → ℕ → Ymdhms → Type 0
IsCivil n md t =
    (t.year ≡ 1970 + n)
    × (1 ≤ t.month)
    × (t.month ≤ 12)
    × (get_elem? (month_days t.year) (t.month - 1) ≡ some md)
    × (1 ≤ t.day)
    × (t.day ≤ md)
    × (t.hour < 24)
    × (t.minute < 60)
    × (t.second < 60)

length-month_days : (y : ℕ) → length (month_days y) ≡ 12
unfolding month_days
length-month_days y = refl

clock_sum : (r : ℕ) → r / 3600 * 3600 + r / 60 % 60 * 60 + r % 60 ≡ r
clock_sum r = omega arith

abbrev date_of : (n secs : ℕ) → ℕ × ℕ → Ymdhms
date_of n secs m = record {
  year = 1970 + n;
  month = m.0;
  day = suc m.1;
  hour = secs % 86400 / 3600;
  minute = secs % 86400 / 60 % 60;
  second = secs % 86400 % 60;
}

-- The date and time of any number of seconds since 1970 below 2 ^ 55, for which the year is an
-- `i32`, is found, is a date of the calendar with
-- leap years, and counts these seconds back: the days of the years since 1970, of the months before
-- and of the month before the day, and the time of the day, make the seconds again.
pub secs_to_ymdhms-counts :
    (secs : ℕ)
    → secs < 2 ^ 55
    → (t : Ymdhms) × (n : ℕ) × (md : ℕ) × (secs_to_ymdhms secs ≡ some t)
      × IsCivil n md t
      × (seconds_of n t ≡ secs)
unfolding secs_to_ymdhms
secs_to_ymdhms-counts secs lt =
    let days = secs / 86400 in
    let (n, r, e1, e2, e3) =
      find_year-counts (suc (days / 365)) 1970 days (omega arith) (omega (arith, lt)) in
    let (k, d, md, f1, f2, f3, f4, f5) =
      find_month-counts (month_days (1970 + n)) 1 r (rw (sum-month_days (1970 + n)) e3) in
    let c : 1 + k - 1 ≡ k = omega arith in
    (
      date_of n secs (1 + k, d),
      n,
      md,
      ap (in_year (secs % 86400)) e1 ∙ ap (λ m. some (date_of n secs m)) f1,
      (
        refl,
        omega arith,
        omega (arith, f5, length-month_days (1970 + n)),
        rw c f3,
        omega arith,
        omega (arith, f4),
        omega arith,
        omega arith,
        omega arith,
      ),
      rw c (omega (arith, e2, f2, clock_sum (secs % 86400))),
    )
