-- ===== src/Query/Parser/Date/Calendar.antt =====
-- The formula of parse_date of src/query/parser.rs against a count of the calendar's days.
use fxi.Base.{
  ℕ, zero, suc, ◌+◌, ◌-◌, ◌*◌, ◌/◌, ◌%◌, ◌≤◌, ◌<◌, ◌≡◌, refl, arith, Bool, true, false, not, ◌&&◌,
  List, [], ◌∷◌, get_or, ltb, ◌==◌, if◌then◌else◌,
}
use fxi.Query.Parser.Date.{is_leap_year, days_table, days_before_month, days_since_epoch}

abbrev pub year_days : Bool → ℕ
year_days leap = if leap then 366 else 365

-- The days of the years from 1970 on, and of the months of one year.
abbrev pub days_of_years : ℕ → ℕ
days_of_years zero = 0
days_of_years (suc n) = days_of_years n + year_days (is_leap_year (1970 + n))

abbrev pub month_lengths : Bool → List ℕ
month_lengths leap =
    31 ∷ (if leap then 29 else 28) ∷ 31 ∷ 30 ∷ 31 ∷ 30 ∷ 31 ∷ 31 ∷ 30 ∷ 31 ∷ 30 ∷ 31 ∷ []

abbrev pub days_of_months : Bool → ℕ → ℕ
days_of_months leap zero = 0
days_of_months leap (suc n) = days_of_months leap n + get_or (month_lengths leap) n 0

-- The days from the first of January 1970 to a date.
abbrev pub calendar_days : (year month day : ℕ) → ℕ
calendar_days year month day =
    days_of_years (year - 1970) + days_of_months (is_leap_year year) (month - 1) + (day - 1)

leap_in_range :
    (n : ℕ)
    → n < 230
    → year_days (is_leap_year (1970 + n)) ≡ year_days ((n + 2) % 4 == 0 && not (n == 130))
unfolding is_leap_year
leap_in_range n h = ground arith

abbrev bit : Bool → ℕ
bit b = if b then 1 else 0

fourth_year : (n : ℕ) → (n + 2) / 4 ≡ (n + 1) / 4 + bit ((n + 2) % 4 == 0)
fourth_year n = ground arith

past_2100 : (n : ℕ) → bit (ltb 130 (suc n)) ≡ bit (ltb 130 n) + bit (n == 130)
past_2100 n = ground arith

year_2100 :
    (n : ℕ)
    → year_days ((n + 2) % 4 == 0 && not (n == 130)) + bit (n == 130) ≡ 365 + bit ((n + 2) % 4 == 0)
year_2100 n = ground arith

days_of_years-formula :
    (n : ℕ) → n ≤ 230 → n * 365 + (n + 1) / 4 ≡ days_of_years n + (if ltb 130 n then 1 else 0)
days_of_years-formula zero h = refl
days_of_years-formula (suc n) h =
    let ih = days_of_years-formula n (omega arith) in
    let step = leap_in_range n (omega arith) in
    omega (arith, ih, step, fourth_year n, past_2100 n, year_2100 n)

days_of_months-table :
    (leap : Bool) (k : ℕ)
    → k < 12
    → (if leap && ltb 2 (suc k) then get_or days_table k 0 + 1 else get_or days_table k 0)
      ≡ days_of_months leap k
days_of_months-table false zero h = refl
days_of_months-table false (suc zero) h = refl
days_of_months-table false (suc (suc zero)) h = refl
days_of_months-table false (suc (suc (suc zero))) h = refl
days_of_months-table false (suc (suc (suc (suc zero)))) h = refl
days_of_months-table false (suc (suc (suc (suc (suc zero))))) h = refl
days_of_months-table false (suc (suc (suc (suc (suc (suc zero)))))) h = refl
days_of_months-table false (suc (suc (suc (suc (suc (suc (suc zero))))))) h = refl
days_of_months-table false (suc (suc (suc (suc (suc (suc (suc (suc zero)))))))) h = refl
days_of_months-table false (suc (suc (suc (suc (suc (suc (suc (suc (suc zero))))))))) h = refl
days_of_months-table false (suc (suc (suc (suc (suc (suc (suc (suc (suc (suc zero)))))))))) h = refl
days_of_months-table false (suc (suc (suc (suc (suc (suc (suc (suc (suc (suc (suc zero)))))))))))
      h =
    refl
days_of_months-table true zero h = refl
days_of_months-table true (suc zero) h = refl
days_of_months-table true (suc (suc zero)) h = refl
days_of_months-table true (suc (suc (suc zero))) h = refl
days_of_months-table true (suc (suc (suc (suc zero)))) h = refl
days_of_months-table true (suc (suc (suc (suc (suc zero))))) h = refl
days_of_months-table true (suc (suc (suc (suc (suc (suc zero)))))) h = refl
days_of_months-table true (suc (suc (suc (suc (suc (suc (suc zero))))))) h = refl
days_of_months-table true (suc (suc (suc (suc (suc (suc (suc (suc zero)))))))) h = refl
days_of_months-table true (suc (suc (suc (suc (suc (suc (suc (suc (suc zero))))))))) h = refl
days_of_months-table true (suc (suc (suc (suc (suc (suc (suc (suc (suc (suc zero)))))))))) h = refl
days_of_months-table true (suc (suc (suc (suc (suc (suc (suc (suc (suc (suc (suc zero))))))))))) h =
    refl
days_of_months-table leap (suc (suc (suc (suc (suc (suc (suc (suc (suc (suc (suc (suc k))))))))))))
      h =
    absurd (omega arith)

-- From 1970 to 2200 the formula gives the days of the calendar up to the end of the year 2100, and
-- one day more after it: it counts 2100, which is no leap year, as one.
pub days_since_epoch-calendar_days :
    (year month day : ℕ)
    → 1970 ≤ year
    → year ≤ 2200
    → 1 ≤ month
    → month ≤ 12
    → days_since_epoch year month day
      ≡ calendar_days year month day + (if ltb 2100 year then 1 else 0)
unfolding days_since_epoch days_before_month
days_since_epoch-calendar_days year zero day a b p q = absurd (omega arith)
days_since_epoch-calendar_days year (suc k) day a b p q =
    let years = days_of_years-formula (year - 1970) (omega arith) in
    let less : suc k - 1 ≡ k = omega arith in
    let months = days_of_months-table (is_leap_year year) k (omega arith) in
    let past : bit (ltb 130 (year - 1970)) ≡ bit (ltb 2100 year) = ground arith in
    let quarter : year - 1970 + 1 ≡ year - 1969 = omega arith in
    rw less (rw (← quarter, days_since_epoch) (omega (arith, years, months, past)))
