-- ===== src/Recurrence.antt =====
-- buyorwait_engine/recurrence/cadence.py: recurring streams from the settled history. A cadence, which
-- the code keeps as a float, is a fraction, and a standard deviation is kept as its square.
pub mod Occurrences
use buy_or_wait_ai_advisor.Common.{
  Bool, Date, Dict, List, Money, Option, Result, String, [], append, civil_of, contains,
  divide_half_even, divide_signed, drop, eqb, false, get_elem?, if◌then◌else◌, insert, leb, leb_ℤ,
  length, lookup_or, lower, ltb, ltb_ℤ, map, max_ℕ, nat_eq, next_month, none, not, ok, pair_eq, pos,
  pos_part, select, some, sort_by, string_eq, strip, take, true, words_from, zero_money, ℕ, ◌%◌,
  ◌&&◌, ◌*ℤ◌, ◌*◌, ◌++◌, ◌+ℤ◌, ◌+◌, ◌-◌, ◌/◌, ◌||◌, ◌∷◌,
}
use buy_or_wait_ai_advisor.Domain.{
  CashType, LifecycleEvent, confirmed_income, future_debit, immediate_debit, settled_income,
  variable_categories,
}
use buy_or_wait_ai_advisor.State.Projections.{
  by_settlement, count_days, fuel_for, intervals, is_settled_in, month_loop, most_common,
  settled_on, step_loop, sum_of,
}

pub data RecurrenceClass : Type 0 where
  confirmed_recurring strong_recurring variable_pattern one_time none_recurring : RecurrenceClass

-- A numerator and a denominator.
abbrev pub Fraction : Type 0
Fraction = ℕ × ℕ

-- `a/b <= n` and `n <= a/b`
abbrev pub at_most : Fraction → ℕ → Bool
at_most (a, b) n = leb a (n * b)

abbrev pub at_least : Fraction → ℕ → Bool
at_least (a, b) n = leb (n * b) a

pub record RecurringStream : Type 0 where
  pub key : String
  pub category : String
  pub direction : String
  pub recurrence_class : RecurrenceClass
  pub cadence_days : Option Fraction
  pub cadence_variance : Option Fraction
  pub usual_day_of_month : Option ℕ
  pub typical_amount : Money
  pub amount_variance : Option Fraction
  pub last_date : Option Date
  pub event_ids : List String
  pub flexibility : String
  pub minimum_allowed_amount : Option Money
  pub settled_amounts : List Money
  pub settled_dates : List Date
  pub aggregate_weekly : Option Money
  pub aggregate_monthly : Option Money

abbrev pub joined_words : List String → String
joined_words [] = ""
joined_words (w ∷ []) = w
joined_words (w ∷ v ∷ words) = append w (append " " (joined_words (v ∷ words)))

unfoldable pub description_prefix : String → String
unfolding lower strip words_from
description_prefix desc = joined_words (take 4 (words_from "" (strip (lower desc))))

-- The element of a sorted list, which is there in every use.
abbrev pub amount_at : List Money → ℕ → Money
amount_at vals i = elim (get_elem? vals i) [ none ↦ zero_money | some v ↦ v ]

abbrev pub number_at : List ℕ → ℕ → ℕ
number_at vals i = elim (get_elem? vals i) [ none ↦ 0 | some v ↦ v ]

unfoldable pub median_decimal : List Money → Money
unfolding sort_by divide_signed
median_decimal vals =
    let sorted_vals = sort_by leb_ℤ vals in
    let n = length sorted_vals in
    let mid = n / 2 in
    if eqb n 0
    then zero_money
    else if eqb (n % 2) 1
    then amount_at sorted_vals mid
    else divide_signed (amount_at sorted_vals (mid - 1) +ℤ amount_at sorted_vals mid) 2

-- `int(n * 0.2)` is a fifth of the length.
unfoldable pub trimmed_median : List Money → Money
unfolding median_decimal
trimmed_median vals =
    let n = length vals in
    let cut = max_ℕ 1 (n / 5) in
    let trimmed = take (n - cut - cut) (drop cut (sort_by leb_ℤ vals)) in
    if ltb n 4 || eqb (length trimmed) 0 then median_decimal vals else median_decimal trimmed

-- `statistics.median`
unfoldable pub median : List ℕ → Fraction
unfolding sort_by
median vals =
    let sorted_vals = sort_by leb vals in
    let n = length sorted_vals in
    let mid = n / 2 in
    if eqb (n % 2) 1
    then (number_at sorted_vals mid, 1)
    else (number_at sorted_vals (mid - 1) + number_at sorted_vals mid, 2)

-- The square of `statistics.stdev`, of two values or more.
unfoldable pub variance : List ℕ → Fraction
variance vals =
    let n = length vals in
    let total = sum_of vals in (n * sum_of (map (λ v. v * v) vals) - total * total, n * (n - 1))

-- `sum(amounts)`
abbrev pub sum_amounts : List Money → Money
sum_amounts [] = zero_money
sum_amounts (a ∷ amounts) = a +ℤ sum_amounts amounts

-- The four cash types that belong to a stream.
abbrev pub is_cash : CashType → Bool
is_cash immediate_debit = true
is_cash settled_income = true
is_cash future_debit = true
is_cash confirmed_income = true
is_cash _ = false

abbrev pub is_settled_cash : CashType → Bool
is_settled_cash immediate_debit = true
is_settled_cash settled_income = true
is_settled_cash _ = false

abbrev pub Groups : Type 0
Groups = Dict String (List LifecycleEvent)

-- `groups.setdefault(key, []).append(ev)` for the events that the test lets in.
unfoldable pub group_by :
    (LifecycleEvent → Bool) → (LifecycleEvent → String) → Groups → List LifecycleEvent → Groups
unfolding insert lookup_or
group_by test key groups [] = groups
group_by test key groups (ev ∷ events) =
    let added = insert (key ev) (lookup_or (key ev) [] groups ++ ev ∷ []) groups in
    group_by test key (if test ev then added else groups) events

abbrev pub fixed_key : LifecycleEvent → String
fixed_key ev =
    append ev.category
      (append "|" (append ev.direction (append "|" (description_prefix ev.description))))

abbrev pub variable_key : LifecycleEvent → String
variable_key ev = append ev.category (append "|" ev.direction)

-- The settled events of a group, in order.
unfoldable pub settled_events : List LifecycleEvent → Date → List LifecycleEvent
unfolding sort_by
settled_events evs as_of_date =
    sort_by by_settlement (
      select (λ e. is_settled_cash e.cash_type && is_settled_in 0 as_of_date e.settlement_date) evs)

unfoldable pub last_date_of : List LifecycleEvent → Option Date
last_date_of [] = none
last_date_of (e ∷ evs) =
    let rest = last_date_of evs in
    elim e.settlement_date [
      | none ↦ rest
      | some d ↦ elim rest [ none ↦ some d | some later ↦ some (max_ℕ d later) ]
    ]

-- `max(evs, key=lambda e: e.settlement_date or date.min)`, the first of the latest.
abbrev pub date_or_min : LifecycleEvent → Date
date_or_min e = elim e.settlement_date [ none ↦ 1 | some d ↦ d ]

unfoldable pub most_recent_event : LifecycleEvent → List LifecycleEvent → LifecycleEvent
most_recent_event best [] = best
most_recent_event best (e ∷ evs) =
    most_recent_event (if ltb (date_or_min best) (date_or_min e) then e else best) evs

unfoldable pub positive_amounts : List LifecycleEvent → List Money
positive_amounts settled = select (λ a. ltb_ℤ zero_money a) (map LifecycleEvent.amount_home settled)

-- By the number of settled events and the square of the deviation.
unfoldable pub fixed_class : ℕ → Option Fraction → RecurrenceClass
fixed_class n none =
    if leb 2 n then variable_pattern else if eqb n 1 then one_time else none_recurring
fixed_class n (some var) =
    if leb 4 n && at_most var 25
    then confirmed_recurring
    else if leb 3 n && at_most var 100
    then strong_recurring
    else if leb 2 n
    then variable_pattern
    else if eqb n 1
    then one_time
    else none_recurring

-- `statistics.stdev(intervals) if len(intervals) >= 2 else 0.0`
abbrev pub deviation_of : List ℕ → Fraction
deviation_of gaps = if leb 2 (length gaps) then variance gaps else (0, 1)

-- The commonest day of the month, where it is common enough.
unfoldable pub usual_day : List LifecycleEvent → Option ℕ
unfolding count_days most_common
usual_day settled =
    let (dom, freq) = most_common (0, 0) (count_days [] settled) in
    if leb (max_ℕ 2 (length settled / 2)) freq then some dom else none

abbrev pub when : {A : Type 0} → Bool → A → Option A
when true a = some a
when false a = none

-- One round of the loop over the groups of fixed categories.
unfoldable pub fixed_stream : String → LifecycleEvent → List LifecycleEvent → Date → RecurringStream
unfolding settled_events intervals median usual_day trimmed_median positive_amounts variance
    most_recent_event fixed_class last_date_of
fixed_stream key first others as_of_date =
    let evs = first ∷ others in
    let settled = settled_events evs as_of_date in
    let amounts = positive_amounts settled in
    let n = length settled in
    let gaps = intervals settled in
    let cadence_std = when (leb 2 n) (deviation_of gaps) in
    let most_recent = most_recent_event first others in
    record {
      key = key;
      category = most_recent.category;
      direction = most_recent.direction;
      recurrence_class = fixed_class n cadence_std;
      cadence_days = when (leb 2 n) (median gaps);
      cadence_variance = cadence_std;
      usual_day_of_month = if leb 2 n then usual_day settled else none;
      typical_amount = trimmed_median amounts;
      amount_variance = when (leb 2 (length amounts)) (variance (map pos_part amounts));
      last_date = last_date_of evs;
      event_ids = map LifecycleEvent.event_id evs;
      flexibility = most_recent.flexibility;
      minimum_allowed_amount = most_recent.minimum_allowed_amount;
      settled_amounts = amounts;
      settled_dates = map settled_on settled;
      aggregate_weekly = none;
      aggregate_monthly = none;
    }

unfoldable pub build_streams_from_groups : Groups → Date → List RecurringStream
unfolding fixed_stream
build_streams_from_groups [] as_of_date = []
build_streams_from_groups ((key, []) ∷ groups) as_of_date =
    build_streams_from_groups groups as_of_date
build_streams_from_groups ((key, first ∷ others) ∷ groups) as_of_date =
    fixed_stream key first others as_of_date ∷ build_streams_from_groups groups as_of_date

unfoldable pub variable_class : ℕ → ℕ → RecurrenceClass
variable_class n window_days =
    if leb 6 n && leb 60 window_days
    then confirmed_recurring
    else if leb 3 n && leb 30 window_days
    then strong_recurring
    else if leb 2 n
    then variable_pattern
    else one_time

-- `(total_spend / max(1, window_days / period)).quantize(Decimal('0.01'))`
unfoldable pub spend_per : ℕ → Money → ℕ → Money
unfolding divide_signed ◌*ℤ◌
spend_per period total_spend window_days =
    divide_signed (total_spend *ℤ pos period) (max_ℕ period window_days * 1_000_000)
    *ℤ pos 1_000_000

-- One round of the loop over the groups of variable categories, from its settled events.
unfoldable pub variable_stream :
    String
    → LifecycleEvent
    → List LifecycleEvent
    → LifecycleEvent
    → List LifecycleEvent
    → Date
    → RecurringStream
unfolding positive_amounts spend_per variable_class most_recent_event last_date_of
variable_stream key first others earliest later as_of_date =
    let evs = first ∷ others in
    let settled = earliest ∷ later in
    let amounts = positive_amounts settled in
    let n = length settled in
    let window_days = max_ℕ 1 (as_of_date - settled_on earliest) in
    let total_spend = sum_amounts amounts in
    let weekly_spend = spend_per 7 total_spend window_days in
    let most_recent = most_recent_event first others in
    record {
      key = key;
      category = most_recent.category;
      direction = most_recent.direction;
      recurrence_class = variable_class n window_days;
      cadence_days = some (window_days, n);
      cadence_variance = none;
      usual_day_of_month = none;
      typical_amount = weekly_spend;
      amount_variance = none;
      last_date = last_date_of evs;
      event_ids = map LifecycleEvent.event_id evs;
      flexibility = most_recent.flexibility;
      minimum_allowed_amount = most_recent.minimum_allowed_amount;
      settled_amounts = amounts;
      settled_dates = map settled_on settled;
      aggregate_weekly = some weekly_spend;
      aggregate_monthly = some (spend_per 30 total_spend window_days);
    }

-- `if not settled: continue`
unfoldable pub variable_streams_of :
    String
    → LifecycleEvent
    → List LifecycleEvent
    → Date
    → List LifecycleEvent
    → List RecurringStream
unfolding variable_stream
variable_streams_of key first others as_of_date [] = []
variable_streams_of key first others as_of_date (earliest ∷ later) =
    variable_stream key first others earliest later as_of_date ∷ []

unfoldable pub build_variable_streams_from_groups : Groups → Date → List RecurringStream
unfolding variable_streams_of settled_events
build_variable_streams_from_groups [] as_of_date = []
build_variable_streams_from_groups ((key, []) ∷ groups) as_of_date =
    build_variable_streams_from_groups groups as_of_date
build_variable_streams_from_groups ((key, first ∷ others) ∷ groups) as_of_date =
    variable_streams_of key first others as_of_date (settled_events (first ∷ others) as_of_date)
    ++ build_variable_streams_from_groups groups as_of_date

unfoldable pub infer_fixed_streams : List LifecycleEvent → Date → List RecurringStream
unfolding group_by build_streams_from_groups description_prefix
infer_fixed_streams events as_of_date =
    build_streams_from_groups
      (group_by (λ ev. not (contains ev.category variable_categories) && is_cash ev.cash_type)
        fixed_key [] events)
      as_of_date

unfoldable pub infer_variable_streams : List LifecycleEvent → Date → List RecurringStream
unfolding group_by build_variable_streams_from_groups
infer_variable_streams events as_of_date =
    build_variable_streams_from_groups
      (group_by (λ ev. contains ev.category variable_categories && is_cash ev.cash_type)
        variable_key [] events)
      as_of_date

unfoldable pub infer_recurring_streams : List LifecycleEvent → Date → List RecurringStream
unfolding infer_fixed_streams infer_variable_streams
infer_recurring_streams events as_of_date =
    infer_fixed_streams events as_of_date ++ infer_variable_streams events as_of_date

-- The months after the last date, where the stream has a day of the month and a cadence of about one;
-- each `_next_day_of_month` moves on by a month. Else steps of the cadence.
unfoldable pub occurrences_of : Option ℕ → Fraction → ℕ → Date → Date → Date → Result (List Date)
unfolding month_loop step_loop civil_of next_month
occurrences_of none cadence_days cadence last_date from_date to_date =
    step_loop (fuel_for to_date) (λ d. leb from_date d) to_date cadence (last_date + cadence)
occurrences_of (some dom) cadence_days cadence last_date from_date to_date =
    let start = civil_of last_date in
    if not (eqb dom 0) && at_least cadence_days 25 && at_most cadence_days 35
    then month_loop (fuel_for to_date) (λ d. leb from_date d) to_date dom
        (next_month (start.year, start.month))
    else step_loop (fuel_for to_date) (λ d. leb from_date d) to_date cadence (last_date + cadence)

abbrev pub is_projected : RecurrenceClass → Bool
is_projected one_time = false
is_projected none_recurring = false
is_projected _ = true

-- The checks of the last date and of the rounded cadence.
unfoldable pub occurrences_from :
    Option ℕ → Date → Date → Option Date → Option Fraction → Result (List Date)
unfolding occurrences_of divide_half_even
occurrences_from dom from_date to_date none cadence_days = ok []
occurrences_from dom from_date to_date (some last_date) none = ok []
occurrences_from dom from_date to_date (some last_date) (some cadence_days) =
    let cadence = divide_half_even cadence_days.0 cadence_days.1 in
    let found = occurrences_of dom cadence_days cadence last_date from_date to_date in
    if eqb cadence 0 then ok [] else found

unfoldable pub project_next_occurrences : RecurringStream → Date → Date → Result (List Date)
unfolding occurrences_from
project_next_occurrences stream from_date to_date =
    if not (is_projected stream.recurrence_class)
    then ok []
    else occurrences_from stream.usual_day_of_month from_date to_date stream.last_date
        stream.cadence_days
