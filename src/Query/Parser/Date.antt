-- ===== src/Query/Parser/Date.antt =====
-- src/query/parser.rs, parse_date and its helpers: a date as seconds since 1970, by a formula.
pub mod Calendar
use fxi.Base.{
  ℕ, ◌+◌, ◌-◌, ◌*◌, ◌/◌, ◌%◌, ◌^◌, Bool, not, ◌&&◌, ◌||◌, Option, none, some, List, [], ◌∷◌, get_or,
  ltb, leb, ◌==◌, if◌then◌else◌, ◌>>=◌,
}
use fxi.Query.Text.{Str, split, parse_uint, u32_max, u64_max}

unfoldable pub is_leap_year : ℕ → Bool
is_leap_year year = year % 4 == 0 && not (year % 100 == 0) || year % 400 == 0

abbrev days_table : List ℕ
days_table = 0 ∷ 31 ∷ 59 ∷ 90 ∷ 120 ∷ 151 ∷ 181 ∷ 212 ∷ 243 ∷ 273 ∷ 304 ∷ 334 ∷ []

-- `month.saturating_sub(1)` is the truncated difference; a month out of the table counts 0.
unfoldable pub days_before_month : ℕ → Bool → ℕ
days_before_month month leap =
    let days = get_or days_table (month - 1) 0 in if leap && ltb 2 month then days + 1 else days

-- Years are at least 1970 here, so no difference is below 0.
unfoldable pub days_since_epoch : (year month day : ℕ) → ℕ
unfolding is_leap_year days_before_month
days_since_epoch year month day =
    (year - 1970) * 365
    + (year - 1969) / 4
    + days_before_month month (is_leap_year year)
    + (day - 1)

abbrev i32_max : ℕ
i32_max = 2 ^ 31 - 1

-- The pieces between dashes hold no minus sign, so an i32 is read as a number up to its largest.
unfoldable pub date_of : List Str → Option ℕ
unfolding days_since_epoch
date_of (a ∷ b ∷ c ∷ more) = do
  year ← parse_uint i32_max a
  month ← parse_uint u32_max b
  day ← parse_uint u32_max c
  if leb 1970 year && (leb 1 month && leb month 12) && (leb 1 day && leb day 31)
      then some (days_since_epoch year month day * 86400)
      else none
date_of parts = none

unfoldable pub parse_date : Str → Option ℕ
unfolding date_of
parse_date s = date_of (split b'-' s)

abbrev or_else : Option ℕ → Option ℕ → Option ℕ
or_else none other = other
or_else (some n) other = some n

unfoldable pub parse_timestamp : Str → Option ℕ
unfolding parse_date
parse_timestamp s = or_else (parse_uint u64_max s) (parse_date s)
