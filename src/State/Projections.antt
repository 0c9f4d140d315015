-- ===== src/State/Projections.antt =====
-- The projections of recurring items: `_project_fixed_category`, `_project_variable_category` and
-- `_project_salary` of buyorwait_engine/state/builder.py.
pub mod Loops
use buy_or_wait_ai_advisor.Common.{
  Bool, Date, Dict, List, Money, Option, Result, String, [], abs_ℤ, any_of, append, civil_of,
  contains, date_of, days_in_month, divide_half_even, divide_signed, drop, eqb, err, false,
  get_elem?, has_text, if◌then◌else◌, insert, leb, leb_ℤ, length, lookup_or, lower, ltb, ltb_ℤ, map,
  map_ok, min_ℕ, nat_eq, negate, next_month, none, not, ok, out_of_fuel, pair_eq, pos, select, some,
  sort_by, string_eq, suc, true, zero, zero_money, ℕ, ◌&&◌, ◌*ℤ◌, ◌*◌, ◌+ℤ◌, ◌+◌, ◌-◌, ◌/◌, ◌==◌,
  ◌||◌, ◌∷◌,
}
use buy_or_wait_ai_advisor.Domain.{
  CashType, LifecycleEvent, ScheduledItem, confirmed_income, immediate_debit,
  salary_termination_keywords, settled_income,
}

-- `e.settlement_date` of an event that has one.
abbrev pub settled_on : LifecycleEvent → Date
settled_on e = elim e.settlement_date [ none ↦ 0 | some d ↦ d ]

abbrev pub is_immediate_debit : CashType → Bool
is_immediate_debit immediate_debit = true
is_immediate_debit _ = false

abbrev pub is_confirmed_income : CashType → Bool
is_confirmed_income confirmed_income = true
is_confirmed_income _ = false

abbrev pub is_income : CashType → Bool
is_income confirmed_income = true
is_income settled_income = true
is_income _ = false

abbrev pub has_date : Option Date → Bool
has_date none = false
has_date (some d) = true

-- `key=lambda e: e.settlement_date`
abbrev pub by_settlement : LifecycleEvent → LifecycleEvent → Bool
by_settlement a b = leb (settled_on a) (settled_on b)

-- `xs[-6:]`
abbrev pub last_six : List LifecycleEvent → List LifecycleEvent
last_six xs = drop (length xs - 6) xs

-- `xs[-1]`, of a list that is not empty: its first element is given.
abbrev pub last_event : LifecycleEvent → List LifecycleEvent → LifecycleEvent
last_event x [] = x
last_event x (y ∷ ys) = last_event y ys

-- The days from each event to the next.
unfoldable pub intervals : List LifecycleEvent → List ℕ
intervals [] = []
intervals (a ∷ []) = []
intervals (a ∷ b ∷ events) = (settled_on b - settled_on a) ∷ intervals (b ∷ events)

abbrev pub sum_of : List ℕ → ℕ
sum_of [] = 0
sum_of (n ∷ ns) = n + sum_of ns

-- `date.day`
abbrev pub day_of_month : Date → ℕ
day_of_month d = (civil_of d).day

-- `dom_counts`
unfoldable pub count_days : Dict ℕ ℕ → List LifecycleEvent → Dict ℕ ℕ
unfolding insert lookup_or civil_of
count_days counts [] = counts
count_days counts (e ∷ events) =
    let d = day_of_month (settled_on e) in
    count_days (insert d (lookup_or d 0 counts + 1) counts) events

-- `max(counts.items(), key=lambda x: x[1])`: the first of the greatest.
unfoldable pub most_common : ℕ × ℕ → Dict ℕ ℕ → ℕ × ℕ
most_common best [] = best
most_common (d, n) ((d', n') ∷ counts) = most_common (if ltb n n' then (d', n') else (d, n)) counts

-- `sorted(amounts)[len(amounts) // 2]`; the index is in range for a list that is not empty.
unfoldable pub middle_amount : List Money → Money
unfolding sort_by
middle_amount amounts = elim (get_elem? (sort_by leb_ℤ amounts) (length amounts / 2)) [
  | none ↦ zero_money
  | some amount ↦ amount
]

-- The item that a projection repeats, with the date filled in.
abbrev pub debit_on : LifecycleEvent → String → String → Money → Date → ScheduledItem
debit_on source_ev category description amount d = record {
  event_id = none;
  date = d;
  amount = negate amount;
  category = category;
  description = description;
  source = "recurring";
  flexibility = source_ev.flexibility;
  minimum_allowed_amount = source_ev.minimum_allowed_amount;
  event_id_for_change = some source_ev.event_id;
}

-- `while True:` over the months from the given one on, for the dates that the test lets in, until one
-- is past the horizon.
unfoldable pub month_loop : ℕ → (Date → Bool) → Date → ℕ → ℕ × ℕ → Result (List Date)
unfolding date_of days_in_month next_month
month_loop zero test horizon_end dom (y, m) = err out_of_fuel
month_loop (suc fuel) test horizon_end dom (y, m) =
    let dt = date_of y m (min_ℕ dom (days_in_month y m)) in
    let rest = month_loop fuel test horizon_end dom (next_month (y, m)) in
    if ltb horizon_end dt
    then ok []
    else map_ok (λ dates. if test dt then dt ∷ dates else dates) rest

-- `while cur <= horizon_end:` in steps of some days.
unfoldable pub step_loop : ℕ → (Date → Bool) → Date → ℕ → Date → Result (List Date)
step_loop zero test horizon_end step cur = err out_of_fuel
step_loop (suc fuel) test horizon_end step cur =
    let rest = step_loop fuel test horizon_end step (cur + step) in
    if leb cur horizon_end
    then map_ok (λ dates. if test cur then cur ∷ dates else dates) rest
    else ok []

abbrev pub fuel_for : Date → ℕ
fuel_for horizon_end = suc (suc horizon_end)

-- `e.category == category and e.cash_type == IMMEDIATE_DEBIT and e.original_status == 'settled'`
abbrev pub is_settled_debit : String → LifecycleEvent → Bool
is_settled_debit category e =
    e.category == category && (is_immediate_debit e.cash_type && e.original_status == "settled")

-- `e.settlement_date and first <= e.settlement_date <= as_of_date`
abbrev pub is_settled_in : Date → Date → Option Date → Bool
is_settled_in first as_of_date none = false
is_settled_in first as_of_date (some d) = leb first d && leb d as_of_date

-- From the category's last events, the oldest given apart.
unfoldable pub project_fixed_recent :
    String → Date → Date → LifecycleEvent → List LifecycleEvent → Result (List ScheduledItem)
unfolding intervals count_days most_common middle_amount month_loop
project_fixed_recent category as_of_date horizon_end first others =
    let gaps = intervals (first ∷ others) in
    let dom = (most_common (0, 0) (count_days [] (first ∷ others))).0 in
    let amount =
      middle_amount (map (λ (e : LifecycleEvent). abs_ℤ e.amount_home) (first ∷ others)) in
    let start = civil_of as_of_date in
    if leb (20 * length gaps) (sum_of gaps) && leb (sum_of gaps) (40 * length gaps)
    then map_ok
        (map (debit_on (last_event first others) category (append "[recurring] " category) amount))
        (month_loop (fuel_for horizon_end) (λ dt. ltb as_of_date dt) horizon_end dom
          (start.year, start.month))
    else ok []

unfoldable pub project_fixed_last :
    String → Date → Date → List LifecycleEvent → Result (List ScheduledItem)
unfolding project_fixed_recent
project_fixed_last category as_of_date horizon_end [] = ok []
project_fixed_last category as_of_date horizon_end (first ∷ others) =
    if ltb (length (first ∷ others)) 2
    then ok []
    else project_fixed_recent category as_of_date horizon_end first others

-- The sorted `cat_events`, the last six of them.
unfoldable pub fixed_history : List LifecycleEvent → String → Date → List LifecycleEvent
unfolding sort_by
fixed_history events category as_of_date = last_six (
    sort_by by_settlement (
      select (λ e. is_settled_debit category e && is_settled_in 0 as_of_date e.settlement_date)
        events))

unfoldable pub project_fixed_category :
    List LifecycleEvent → String → Date → Date → Result (List ScheduledItem)
unfolding fixed_history project_fixed_last
project_fixed_category events category as_of_date horizon_end =
    project_fixed_last category as_of_date horizon_end (fixed_history events category as_of_date)

abbrev pub total_of : List LifecycleEvent → Money
total_of [] = zero_money
total_of (e ∷ events) = abs_ℤ e.amount_home +ℤ total_of events

-- The items of one rate, from the sorted events.
unfoldable pub project_variable_sorted :
    String → Date → Date → Bool → Money → List LifecycleEvent → Result (List ScheduledItem)
unfolding step_loop
project_variable_sorted category as_of_date horizon_end use_daily_burn daily_rate [] = ok []
project_variable_sorted category as_of_date horizon_end use_daily_burn daily_rate (first ∷ others) =
    let source_ev = last_event first others in
    if leb_ℤ daily_rate zero_money
    then ok []
    else if use_daily_burn
    then map_ok
        (map (debit_on source_ev category (append "[recurring daily] " category) daily_rate))
        (step_loop (fuel_for horizon_end) (λ _. true) horizon_end 1 (as_of_date + 1))
    else map_ok
        (map (
          debit_on source_ev category (append "[recurring weekly] " category)
            (daily_rate *ℤ pos 7)))
        (step_loop (fuel_for horizon_end) (λ _. true) horizon_end 7 (as_of_date + 7))

-- `cat_events`: the look-back is 90 days; a negative first day is as good as 0.
unfoldable pub variable_history : List LifecycleEvent → String → Date → List LifecycleEvent
variable_history events category as_of_date =
    select
      (λ e.
        is_settled_debit category e && is_settled_in (as_of_date - 90) as_of_date e.settlement_date)
      events

unfoldable pub daily_rate_of : List LifecycleEvent → Money
unfolding divide_signed
daily_rate_of cat_events = divide_signed (total_of cat_events) 90

unfoldable pub project_variable_category :
    List LifecycleEvent → String → Date → Date → Bool → Result (List ScheduledItem)
unfolding sort_by variable_history daily_rate_of project_variable_sorted
project_variable_category events category as_of_date horizon_end use_daily_burn =
    let cat_events = variable_history events category as_of_date in
    project_variable_sorted category as_of_date horizon_end use_daily_burn
      (daily_rate_of cat_events) (sort_by by_settlement cat_events)

abbrev pub extra_pay_words : List String
extra_pay_words = "commission" ∷ "bonus" ∷ "komisi" ∷ "arrears" ∷ "one-time" ∷ "adjustment" ∷ []

-- `any(w in desc.lower() for w in words)`
abbrev pub mentions : List String → String → Bool
mentions words description = any_of (has_text (lower description)) words

abbrev pub is_regular_salary : LifecycleEvent → Bool
is_regular_salary e =
    e.category == "salary"
    && (is_income e.cash_type
        && (has_date e.settlement_date
            && (ltb_ℤ zero_money e.amount_home && not (mentions extra_pay_words e.description))))

-- `max(events, key=lambda e: e.settlement_date)`: the first of the latest.
unfoldable pub latest_event : LifecycleEvent → List LifecycleEvent → LifecycleEvent
latest_event best [] = best
latest_event best (e ∷ events) =
    latest_event (if ltb (settled_on best) (settled_on e) then e else best) events

unfoldable pub typical_salary : List LifecycleEvent → List LifecycleEvent → Money
unfolding middle_amount latest_event
typical_salary salary_all recent = elim (select (λ e. is_confirmed_income e.cash_type) salary_all) [
  | [] ↦ middle_amount (map LifecycleEvent.amount_home recent)
  | e ∷ scheduled ↦ LifecycleEvent.amount_home (latest_event e scheduled)
]

abbrev pub salary_on : Money → Date → ScheduledItem
salary_on amount d = record {
  event_id = none;
  date = d;
  amount = amount;
  category = "salary";
  description = "[recurring] salary";
  source = "recurring";
  flexibility = "fixed";
  minimum_allowed_amount = none;
  event_id_for_change = none;
}

-- `(25 <= avg_interval <= 35) or (dom_freq >= 2 and dom_freq / len(recent) >= 0.5)`
abbrev pub is_monthly : List ℕ → ℕ → ℕ → Bool
is_monthly gaps dom_freq count =
    leb (25 * length gaps) (sum_of gaps) && leb (sum_of gaps) (35 * length gaps)
    || leb 2 dom_freq && leb count (2 * dom_freq)

-- The dates of the next salaries, from the commonest day and the gaps; `round(avg_interval)` may be 0.
unfoldable pub salary_dates : ℕ × ℕ → List ℕ → ℕ → Date → (Date → Bool) → Date → Result (List Date)
unfolding month_loop step_loop divide_half_even
salary_dates (dom, dom_freq) gaps count last_date test horizon_end =
    let start = civil_of last_date in
    let step = divide_half_even (sum_of gaps) (length gaps) in
    if is_monthly gaps dom_freq count
    then month_loop (fuel_for horizon_end) test horizon_end dom
        (next_month (start.year, start.month))
    else step_loop (fuel_for horizon_end) test horizon_end step (last_date + step)

-- `next_dt > as_of_date and next_dt not in scheduled_dates`
abbrev pub is_new_date : Date → List Date → Date → Bool
is_new_date as_of_date scheduled_dates dt = ltb as_of_date dt && not (contains dt scheduled_dates)

unfoldable pub project_salary_sorted :
    List LifecycleEvent → Date → Date → List Date → Result (List ScheduledItem)
unfolding intervals count_days most_common typical_salary salary_dates has_text lower
project_salary_sorted [] as_of_date horizon_end scheduled_dates = ok []
project_salary_sorted (first ∷ others) as_of_date horizon_end scheduled_dates =
    let last_ev = last_event first others in
    let recent = last_six (first ∷ others) in
    let gaps = intervals recent in
    if ltb (length (first ∷ others)) 2
      || (mentions salary_termination_keywords last_ev.description || eqb (sum_of gaps) 0)
    then ok []
    else map_ok (map (salary_on (typical_salary (first ∷ others) recent))) (
        salary_dates (most_common (0, 0) (count_days [] recent)) gaps (length recent)
          (settled_on last_ev) (is_new_date as_of_date scheduled_dates) horizon_end)

-- `salary_all`
unfoldable pub salary_history : List LifecycleEvent → List LifecycleEvent
unfolding sort_by
salary_history events = sort_by by_settlement (select is_regular_salary events)

unfoldable pub project_salary :
    List LifecycleEvent → Date → Date → List Date → Result (List ScheduledItem)
unfolding salary_history project_salary_sorted
project_salary events as_of_date horizon_end scheduled_dates =
    project_salary_sorted (salary_history events) as_of_date horizon_end scheduled_dates
