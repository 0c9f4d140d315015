-- ===== src/State/Builder.antt =====
-- `build_financial_state_from_inputs` of buyorwait_engine/state/builder.py. The two sets of categories
-- are gone through in an order that the interpreter chooses, so that the orders are arguments.
pub mod Ahead
pub mod Quiet
pub mod Total
pub mod Crowded
use buy_or_wait_ai_advisor.Common.{
  Bool, Date, List, Money, Option, Result, String, [], contains, false, flat_map_result,
  if◌then◌else◌, leb, ltb, map, map_ok, nat_eq, negate, none, not, ok, pair_eq, select, some,
  string_eq, true, zero_money, ◌&&◌, ◌++◌, ◌+ℤ◌, ◌+◌, ◌-ℤ◌, ◌==◌, ◌>>=◌, ◌∷◌,
}
use buy_or_wait_ai_advisor.Domain.{
  CashType, CashflowEventInput, FinancialProfileInput, FinancialState, LifecycleEvent,
  ScheduledItem, forecast_horizon_days, future_debit,
}
use buy_or_wait_ai_advisor.Currency.Fx.{FxEngine}
use buy_or_wait_ai_advisor.State.Resolve.{resolve_events}
use buy_or_wait_ai_advisor.State.Projections.{
  is_confirmed_income, is_immediate_debit, project_fixed_category, project_salary,
  project_variable_category, settled_on,
}

abbrev pub is_future_debit : CashType → Bool
is_future_debit future_debit = true
is_future_debit _ = false

-- `settle_dt is None or settle_dt <= as_of_date or settle_dt > horizon_end`, denied.
abbrev pub is_ahead : Date → Date → Option Date → Bool
is_ahead as_of_date horizon_end none = false
is_ahead as_of_date horizon_end (some d) = ltb as_of_date d && leb d horizon_end

-- The pending debits of the resolved events.
unfoldable pub pending_total : List LifecycleEvent → Money
pending_total [] = zero_money
pending_total (ev ∷ events) =
    let rest = pending_total events in
    if is_immediate_debit ev.cash_type && ev.original_status == "pending"
    then ev.amount_home +ℤ rest
    else rest

abbrev pub scheduled_debit : LifecycleEvent → ScheduledItem
scheduled_debit ev = record {
  event_id = some ev.event_id;
  date = settled_on ev;
  amount = negate ev.amount_home;
  category = ev.category;
  description = ev.description;
  source = "scheduled";
  flexibility = ev.flexibility;
  minimum_allowed_amount = ev.minimum_allowed_amount;
  event_id_for_change = some ev.event_id;
}

abbrev pub scheduled_income : LifecycleEvent → ScheduledItem
scheduled_income ev = record {
  event_id = some ev.event_id;
  date = settled_on ev;
  amount = ev.amount_home;
  category = ev.category;
  description = ev.description;
  source = "scheduled";
  flexibility = "fixed";
  minimum_allowed_amount = none;
  event_id_for_change = none;
}

unfoldable pub future_debits_of : List LifecycleEvent → Date → Date → List ScheduledItem
future_debits_of resolved as_of_date horizon_end = map scheduled_debit (
    select
      (λ ev. is_ahead as_of_date horizon_end ev.settlement_date && is_future_debit ev.cash_type)
      resolved)

unfoldable pub future_income_of : List LifecycleEvent → Date → Date → List ScheduledItem
future_income_of resolved as_of_date horizon_end = map scheduled_income (
    select
      (λ ev. is_ahead as_of_date horizon_end ev.settlement_date && is_confirmed_income ev.cash_type)
      resolved)

-- `set(it.date for it in items if it.category == category)`, as a list.
abbrev pub dates_in : String → List ScheduledItem → List Date
dates_in category items = map ScheduledItem.date (select (λ it. it.category == category) items)

-- A fixed category, less the days on which it is scheduled.
unfoldable pub fixed_items :
    List LifecycleEvent → List ScheduledItem → Date → Date → String → Result (List ScheduledItem)
unfolding project_fixed_category
fixed_items resolved future_debits as_of_date horizon_end cat =
    map_ok (select (λ item. not (contains item.date (dates_in cat future_debits))))
      (project_fixed_category resolved cat as_of_date horizon_end)

unfoldable pub build_financial_state :
    Date
    → List String
    → List String
    → FinancialProfileInput
    → List CashflowEventInput
    → Date
    → String
    → Option FxEngine
    → Bool
    → Result FinancialState
unfolding resolve_events pending_total future_debits_of future_income_of fixed_items
    project_variable_category project_salary
build_financial_state today fixed_order variable_order profile events as_of_date request_id fx
      use_daily_burn =
    do
      let horizon_end = as_of_date + forecast_horizon_days
      let resolved = resolve_events today events profile.home_currency fx
      let pending = pending_total resolved
      let future_debits = future_debits_of resolved as_of_date horizon_end
      let future_income = future_income_of resolved as_of_date horizon_end
      fixed ←
          flat_map_result (fixed_items resolved future_debits as_of_date horizon_end) fixed_order
      variable ←
          flat_map_result
            (λ cat. project_variable_category resolved cat as_of_date horizon_end use_daily_burn)
            variable_order
      salary ← project_salary resolved as_of_date horizon_end (dates_in "salary" future_income)
      ok (record {
        user_id = profile.user_id;
        request_id = request_id;
        request_date = as_of_date;
        home_currency = profile.home_currency;
        starting_balance = profile.current_available_balance -ℤ pending;
        balance_before_pending = profile.current_available_balance;
        minimum_balance = profile.minimum_balance_to_keep;
        pending_debit_total = pending;
        protected_categories = profile.protected_categories;
        reducible_categories = profile.reducible_categories;
        stoppable_categories = profile.stoppable_categories;
        payment_methods = profile.payment_methods;
        max_installment_months = profile.max_installment_months;
        lifecycle_events = resolved;
        future_debits = future_debits;
        future_income = future_income;
        recurring_debits = fixed ++ variable;
        recurring_income = salary;
      })
