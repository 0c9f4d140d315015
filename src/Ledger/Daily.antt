-- ===== src/Ledger/Daily.antt =====
-- buyorwait_engine/forecast/ledger.py: the daily ledger over the forecast horizon.
use buy_or_wait_ai_advisor.Common.{
  Date, Dict, List, Money, Option, String, [], abs_ℤ, drop, get_elem?, has_text, if◌then◌else◌,
  insert, leb_ℤ, lookup, lookup_or, ltb, ltb_ℤ, min_ℤ, nat_eq, none, pair_eq, some, string_eq, suc,
  zero, zero_money, ℕ, ◌+ℤ◌, ◌+◌, ◌-ℤ◌, ◌-◌, ◌∷◌,
}
use buy_or_wait_ai_advisor.Domain.{
  FinancialState, PaymentPlan, ScheduledItem, SpendingChanges, forecast_horizon_days,
}

-- `credit_map` and `debit_map`
abbrev pub DayMap : Type 0
DayMap = Dict Date Money

abbrev pub day_total : DayMap → Date → Money
day_total m dt = lookup_or dt zero_money m

unfoldable pub add_credit : Date → Money → DayMap → DayMap
add_credit dt amt m = if leb_ℤ amt zero_money then m else insert dt (day_total m dt +ℤ amt) m

unfoldable pub add_debit : Date → Money → DayMap → DayMap
add_debit dt amt m =
    let mag = abs_ℤ amt in if leb_ℤ mag zero_money then m else insert dt (day_total m dt +ℤ mag) m

-- `item.event_id_for_change in spending_changes`, with the entry that is there.
unfoldable pub change_for : SpendingChanges → Option String → Option (Option Money)
change_for changes none = none
change_for changes (some id) = lookup id changes

-- A scheduled debit: `none` where the spending is stopped, else what is passed to `add_debit`.
unfoldable pub future_debit_amount : SpendingChanges → ScheduledItem → Option Money
future_debit_amount changes item = elim (change_for changes item.event_id_for_change) [
  | none ↦ some (abs_ℤ item.amount)
  | some none ↦ none
  | some (some change) ↦ some change
]

-- A projected debit: a reduced `[daily burn]` takes its own minimum where it has one.
unfoldable pub recurring_debit_amount : SpendingChanges → ScheduledItem → Option Money
recurring_debit_amount changes item = elim (change_for changes item.event_id_for_change) [
  | none ↦ some (abs_ℤ item.amount)
  | some none ↦ none
  | some (some change) ↦ some (
      if has_text item.description "[daily burn]"
      then elim item.minimum_allowed_amount [ none ↦ change | some least ↦ least ]
      else change)
]

-- The loops of `_build_daily_maps`, each over its list.
unfoldable pub add_debits : (ScheduledItem → Option Money) → List ScheduledItem → DayMap → DayMap
unfolding add_debit
add_debits amount_of [] m = m
add_debits amount_of (item ∷ items) m =
    add_debits amount_of items
      (elim (amount_of item) [ none ↦ m | some amt ↦ add_debit item.date amt m ])

unfoldable pub add_income : List ScheduledItem → DayMap → DayMap
unfolding add_credit
add_income [] m = m
add_income (item ∷ items) m = add_income items (add_credit item.date item.amount m)

unfoldable pub add_payments : PaymentPlan → DayMap → DayMap
unfolding add_debit
add_payments [] m = m
add_payments ((dt, amt) ∷ plan) m =
    add_payments plan (if ltb_ℤ zero_money amt then add_debit dt amt m else m)

unfoldable pub credit_map : FinancialState → DayMap
unfolding add_income
credit_map state = add_income state.recurring_income (add_income state.future_income [])

unfoldable pub debit_map : FinancialState → SpendingChanges → PaymentPlan → DayMap
unfolding add_debits add_payments
debit_map state changes payments = add_payments payments (
    add_debits (recurring_debit_amount changes) state.recurring_debits
      (add_debits (future_debit_amount changes) state.future_debits []))

-- `_build_daily_maps`: (credit_map, debit_map).
unfoldable pub build_daily_maps : FinancialState → SpendingChanges → PaymentPlan → DayMap × DayMap
unfolding credit_map debit_map
build_daily_maps state changes payments = (credit_map state, debit_map state changes payments)

pub record DayEntry : Type 0 where
  pub dt : Date
  pub opening : Money
  pub credits : Money
  pub debits : Money
  pub payment : Money
  pub closing : Money

pub record Ledger : Type 0 where
  pub start_date : Date
  pub entries : List DayEntry
  pub minimum_closing : Money
  pub minimum_closing_date : Date

-- What the day loop reads of its maps.
pub record Flows : Type 0 where
  pub credits : Date → Money
  pub debits : Date → Money
  pub payment : Date → Money

-- The `while current <= end` loop, by the days that are left: the entries from `current` on, and the
-- final `(min_closing, min_date)`.
unfoldable pub day_loop : Flows → ℕ → Date → Money → Money → Date → List DayEntry × Money × Date
day_loop flows zero current balance min_closing min_date = ([], min_closing, min_date)
day_loop flows (suc left) current balance min_closing min_date =
    let closing = balance +ℤ flows.credits current -ℤ flows.debits current in
    let entry : DayEntry = record {
      dt = current;
      opening = balance;
      credits = flows.credits current;
      debits = flows.debits current;
      payment = flows.payment current;
      closing = closing;
    } in
    let lower = ltb_ℤ closing min_closing in
    let (entries, least, least_date) =
      day_loop flows left (current + 1) closing (if lower then closing else min_closing)
        (if lower then current else min_date) in
    (entry ∷ entries, least, least_date)

unfoldable pub flows_of : FinancialState → SpendingChanges → PaymentPlan → Flows
unfolding build_daily_maps
flows_of state changes payments =
    let maps = build_daily_maps state changes payments in
    record { credits = day_total maps.0; debits = day_total maps.1; payment = day_total payments }

unfoldable pub ledger_until : Date → FinancialState → SpendingChanges → PaymentPlan → Ledger
unfolding day_loop flows_of
ledger_until end_date state changes payments =
    let start = state.request_date in
    let (entries, least, least_date) =
      day_loop (flows_of state changes payments) (end_date + 1 - start) start state.starting_balance
        state.starting_balance start in
    record {
      start_date = start;
      entries = entries;
      minimum_closing = least;
      minimum_closing_date = least_date;
    }

-- `build_ledger` with its default end.
unfoldable pub build_ledger : FinancialState → SpendingChanges → PaymentPlan → Ledger
unfolding ledger_until
build_ledger state = ledger_until (state.request_date + forecast_horizon_days) state

-- `ledger.entries[idx]` for `idx = (dt - start).days`, where that is in range.
unfoldable pub get_balance_on : Ledger → Date → Option Money
get_balance_on ledger dt =
    if ltb dt ledger.start_date
    then none
    else elim (get_elem? ledger.entries (dt - ledger.start_date)) [
      | none ↦ none
      | some entry ↦ some entry.closing
    ]

-- The least closing of a list of entries; `none` for no entry.
unfoldable pub lower_of : DayEntry → Option Money → Option Money
lower_of entry none = some entry.closing
lower_of entry (some least) = some (min_ℤ entry.closing least)

unfoldable pub min_closing_of : List DayEntry → Option Money
min_closing_of [] = none
min_closing_of (entry ∷ entries) = lower_of entry (min_closing_of entries)

-- `none` is `Decimal('Inf')`. The index `max(0, …)` is the truncated difference.
unfoldable pub min_balance_from : Ledger → Date → Option Money
unfolding min_closing_of
min_balance_from ledger from_date =
    min_closing_of (drop (from_date - ledger.start_date) ledger.entries)
