-- ===== src/Common/Calendar.antt =====
-- `calendar.isleap`, `calendar.monthrange`, `date.toordinal` and `date.fromordinal`.
use Prim.Native.Nat.{ℕ, zero, suc, ◌+◌, ◌-◌, ◌*◌, ◌/◌, ◌%◌, ◌≤◌}
use native.Mathlib.Numerals.{add-one}
use mathlib.Core.Path.{◌≡◌, ◌∙◌, refl}
use mathlib.Core.Logic.{inl, inr}
use mathlib.Core.Bool.{Bool, not, ◌&&◌, ◌||◌}
use native.Mathlib.Omega.{arith}
use buy_or_wait_ai_advisor.Common.Tests.{Bool-cases, eqb, leb, ltb, if◌then◌else◌}

abbrev pub is_leap : ℕ → Bool
is_leap y = eqb (y % 4) 0 && (not (eqb (y % 100) 0) || eqb (y % 400) 0)

-- `monthrange(y, m)[1]`
unfoldable pub days_in_month : ℕ → ℕ → ℕ
days_in_month y m =
    if eqb m 2
    then (if is_leap y then 29 else 28)
    else if eqb m 4 || eqb m 6 || eqb m 9 || eqb m 11
    then 30
    else 31

abbrev pub days_in_year : ℕ → ℕ
days_in_year y = if is_leap y then 366 else 365

unfoldable pub days_before_year : ℕ → ℕ
days_before_year y = let p = y - 1 in p * 365 + p / 4 - p / 100 + p / 400

unfoldable pub days_before_month : ℕ → ℕ → ℕ
unfolding days_in_month
days_before_month y zero = 0
days_before_month y (suc zero) = 0
days_before_month y (suc (suc m)) = days_before_month y (suc m) + days_in_month y (suc m)

-- The ordinal of the day before the month.
unfoldable pub month_start : ℕ → ℕ → ℕ
month_start y m = days_before_year y + days_before_month y m

-- `date(y, m, d)`
unfoldable pub date_of : ℕ → ℕ → ℕ → ℕ
date_of y m d = month_start y m + d

pub record Civil : Type 0 where
  pub year : ℕ
  pub month : ℕ
  pub day : ℕ

-- The month and day of the `n`-th day of a year, from month `m` on.
unfoldable pub find_month : ℕ → ℕ → ℕ → ℕ → Civil
unfolding days_in_month
find_month zero y m n = record { year = y; month = m; day = n }
find_month (suc left) y m n =
    let later = find_month left y (m + 1) (n - days_in_month y m) in
    if leb n (days_in_month y m) then record { year = y; month = m; day = n } else later

-- The year of the `n`-th day from year `y` on.
unfoldable pub find_year : ℕ → ℕ → ℕ → Civil
unfolding find_month
find_year zero y n = find_month 11 y 1 n
find_year (suc left) y n =
    let later = find_year left (y + 1) (n - days_in_year y) in
    if leb n (days_in_year y) then find_month 11 y 1 n else later

-- `date.fromordinal(n)`: 400 years have 146097 days.
unfoldable pub civil_of : ℕ → Civil
unfolding find_year
civil_of n = find_year 399 ((n - 1) / 146_097 * 400 + 1) ((n - 1) % 146_097 + 1)

unfoldable pub next_month : ℕ × ℕ → ℕ × ℕ
next_month (y, m) = if ltb 12 (m + 1) then (y + 1, 1) else (y, m + 1)

ordinal_739000 : civil_of 739_000 ≡ record { year = 2024; month = 4; day = 24 }
unfolding civil_of
ordinal_739000 = refl

april_22 : date_of 2024 4 22 ≡ 738_998
unfolding date_of month_start days_before_year days_before_month
april_22 = refl

find_month-month_in :
    (left y m n : ℕ)
    → (m ≤ (find_month left y m n).month) × ((find_month left y m n).month ≤ m + left)
unfolding find_month
find_month-month_in zero y m n = omega arith
find_month-month_in (suc left) y m n =
    ground (arith, find_month-month_in left y (m + 1) (n - days_in_month y m))

find_year-month_in :
    (left y n : ℕ) → (1 ≤ (find_year left y n).month) × ((find_year left y n).month ≤ 12)
unfolding find_year
find_year-month_in zero y n = ground (arith, find_month-month_in 11 y 1 n)
find_year-month_in (suc left) y n =
    ground
      (arith, find_month-month_in 11 y 1 n, find_year-month_in left (y + 1) (n - days_in_year y))

pub civil_of-month_in : (n : ℕ) → (1 ≤ (civil_of n).month) × ((civil_of n).month ≤ 12)
unfolding civil_of
civil_of-month_in n = find_year-month_in 399 ((n - 1) / 146_097 * 400 + 1) ((n - 1) % 146_097 + 1)

days_before_year-suc :
    (y : ℕ) → 1 ≤ y → days_before_year (y + 1) ≡ days_before_year y + days_in_year y
unfolding days_before_year
days_before_year-suc y h = ground arith

december : (y : ℕ) → days_before_month y 12 + 31 ≡ days_in_year y
unfolding days_before_month days_in_month
december y = ground arith

days_before_month-suc :
    (y m : ℕ) → 1 ≤ m → days_before_month y (m + 1) ≡ days_before_month y m + days_in_month y m
unfolding days_before_month
days_before_month-suc y zero h = absurd (omega arith)
days_before_month-suc y (suc m) h = rw (add-one (suc m)) refl

pub days_in_month_pos : (y m : ℕ) → 1 ≤ days_in_month y m
unfolding days_in_month
days_in_month_pos y m = ground arith

days_before_month_first : (y : ℕ) → days_before_month y 1 ≡ 0
unfolding days_before_month
days_before_month_first y = refl

-- The months follow one another.
pub month_start-next_month :
    (y m : ℕ)
    → 1 ≤ y
    → 1 ≤ m
    → m ≤ 12
    → let (y', m') = next_month (y, m) in
      (1 ≤ y') × (1 ≤ m') × (m' ≤ 12) × (month_start y m + 1 ≤ month_start y' m')
unfolding month_start next_month
month_start-next_month y m hy lo hi =
    let step = days_before_month-suc y m lo in
    let new_year = days_before_year-suc y hy in
    let first = days_before_month_first (y + 1) in
    elim (Bool-cases (ltb 12 (m + 1))) [
      | inl last ↦
          let e : m ≡ 12 = ground arith in
          rw last (omega arith, omega arith, omega arith, (rw e (omega (arith, december y))))
      | inr more ↦ rw more (hy, omega arith, ground arith, omega (arith, days_in_month_pos y m))
    ]

find_month-date_of :
    (left y m n : ℕ)
    → 1 ≤ m
    → let found = find_month left y m n in date_of found.year found.month found.day ≡ date_of y m n
unfolding find_month date_of month_start
find_month-date_of zero y m n h = refl
find_month-date_of (suc left) y m n h =
    ground (
      arith,
      days_before_month-suc y m h,
      find_month-date_of left y (m + 1) (n - days_in_month y m),
    )

find_year-date_of :
    (left y n : ℕ)
    → 1 ≤ y
    → let found = find_year left y n in
      date_of found.year found.month found.day ≡ days_before_year y + n
unfolding find_year date_of
find_year-date_of zero y n h =
    find_month-date_of 11 y 1 n (omega arith)
    ∙ unfold date_of month_start in omega (arith, days_before_month_first y)
find_year-date_of (suc left) y n h =
    let here = find_month-date_of 11 y 1 n (omega arith) in
    let start : date_of y 1 n ≡ days_before_year y + n =
      unfold date_of month_start in omega (arith, days_before_month_first y) in
    elim (Bool-cases (leb n (days_in_year y))) [
      | inl fits ↦ rw fits (here ∙ start)
      | inr after ↦ rw after (
          find_year-date_of left (y + 1) (n - days_in_year y) (omega arith)
          ∙ ground (arith, days_before_year-suc y h))
    ]

find_month-year : (left y m n : ℕ) → (find_month left y m n).year ≡ y
unfolding find_month
find_month-year zero y m n = refl
find_month-year (suc left) y m n =
    ground (arith, find_month-year left y (m + 1) (n - days_in_month y m))

find_year-le : (left y n : ℕ) → y ≤ (find_year left y n).year
unfolding find_year
find_year-le zero y n = omega (arith, find_month-year 11 y 1 n)
find_year-le (suc left) y n =
    ground (arith, find_month-year 11 y 1 n, find_year-le left (y + 1) (n - days_in_year y))

-- 400 years from any first year of a cycle.
cycle : (k : ℕ) → days_before_year (k * 400 + 1) ≡ k * 146_097
unfolding days_before_year
cycle k = omega arith

pub civil_of-year_pos : (n : ℕ) → 1 ≤ (civil_of n).year
unfolding civil_of
civil_of-year_pos n =
    omega (arith, find_year-le 399 ((n - 1) / 146_097 * 400 + 1) ((n - 1) % 146_097 + 1))

-- The year, month and day of an ordinal have that ordinal.
pub date_of-civil_of :
    (n : ℕ) → 1 ≤ n → date_of (civil_of n).year (civil_of n).month (civil_of n).day ≡ n
unfolding civil_of
date_of-civil_of n h =
    let k = (n - 1) / 146_097 in
    find_year-date_of 399 (k * 400 + 1) ((n - 1) % 146_097 + 1) (omega arith)
    ∙ omega (arith, cycle k)
