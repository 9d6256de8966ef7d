-- ===== src/Qs/Clock.antt =====
-- `secs_to_ymdhms` of crates/bsrs/src/qs/state.rs, for the time of day since 1970, which
-- `now_iso8601` takes: no negative seconds. The loop over the years runs on fuel; a year has 365 days
-- or more, so that one turn more than a 365th of the days is enough. The year is an `i32`: `none`
-- stands for its overflow, which panics or wraps.
pub mod Dates
use bsrs.Prelude.{
  ℕ, zero, suc, ◌+◌, ◌-◌, ◌*◌, ◌/◌, ◌%◌, ◌^◌, Bool, not, ◌&&◌, ◌||◌, Option, none, some, List, [],
  ◌∷◌, ◌==◌, ltb, if◌then◌else◌,
}

pub record Ymdhms : Type 0 where
  pub year : ℕ
  pub month : ℕ
  pub day : ℕ
  pub hour : ℕ
  pub minute : ℕ
  pub second : ℕ

unfoldable pub is_leap : ℕ → Bool
is_leap y = (y % 4 == 0) && not (y % 100 == 0) || y % 400 == 0

unfoldable pub days_in_year : ℕ → ℕ
days_in_year y = if is_leap y then 366 else 365

unfoldable pub month_days : ℕ → List ℕ
month_days y =
    31 ∷ (if is_leap y then 29 else 28) ∷ 31 ∷ 30 ∷ 31 ∷ 30 ∷ 31 ∷ 31 ∷ 30 ∷ 31 ∷ 30 ∷ 31 ∷ []

abbrev pub i32_limit : ℕ
i32_limit = 2 ^ 31

-- The loop over the years: the year, and the day in it.
unfoldable pub find_year : ℕ → ℕ → ℕ → Option (ℕ × ℕ)
find_year zero y d = none
find_year (suc fuel) y d =
    let later = find_year fuel (suc y) (d - days_in_year y) in
    if ltb d (days_in_year y) then some (y, d) else if ltb (suc y) i32_limit then later else none

-- The loop over the months: the month, and the day in it.
unfoldable pub find_month : List ℕ → ℕ → ℕ → ℕ × ℕ
find_month [] mo d = (mo, d)
find_month (md ∷ rest) mo d =
    let later = find_month rest (suc mo) (d - md) in if ltb d md then (mo, d) else later

abbrev pub in_year : ℕ → Option (ℕ × ℕ) → Option Ymdhms
in_year r none = none
in_year r (some (y, d)) =
    let m = find_month (month_days y) 1 d in
    some record {
      year = y;
      month = m.0;
      day = suc m.1;
      hour = r / 3600;
      minute = r / 60 % 60;
      second = r % 60;
    }

unfoldable pub secs_to_ymdhms : ℕ → Option Ymdhms
secs_to_ymdhms secs =
    let days = secs / 86400 in in_year (secs % 86400) (find_year (suc (days / 365)) 1970 days)
