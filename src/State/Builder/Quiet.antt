-- ===== src/State/Builder/Quiet.antt =====
-- The safe amount on a built state: buyorwait_engine/state/builder.py with decision/safe_amount.py.
use buy_or_wait_ai_advisor.Common.{
  All, Bool, Date, List, Money, Option, Option-cases, String, [], abs_ℤ, ap, arith, eqb-lt, inl,
  inr, int_laws, neg_part, none, ok, pos_part, refl, some, zero_money, ◌+◌, ◌<ℤ◌, ◌↔◌, ◌∷◌, ◌≡◌,
  ◌≤ℤ◌,
}
use buy_or_wait_ai_advisor.Domain.{
  CashflowEventInput, FinancialProfileInput, FinancialState, ScheduledItem, SpendingChanges,
  forecast_horizon_days,
}
use buy_or_wait_ai_advisor.Ledger.Projection.{debits_on, income_on, net_on, on_day}
use buy_or_wait_ai_advisor.State.Builder.Ahead.{AllAhead, IsAhead, build_financial_state-AllAhead}
use buy_or_wait_ai_advisor.Currency.Fx.{FxEngine}
use buy_or_wait_ai_advisor.Ledger.Daily.{future_debit_amount, recurring_debit_amount}
use buy_or_wait_ai_advisor.Ledger.Solvency.{IsSolvent}
use buy_or_wait_ai_advisor.Decision.SafeAmount.{compute_safe_amount}
use buy_or_wait_ai_advisor.Decision.SafeAmount.Headroom.{compute_safe_amount_largest}
use buy_or_wait_ai_advisor.State.Builder.{build_financial_state}

income_on_zero :
    (as_of_date horizon_end : Date) (items : List ScheduledItem)
    → All (IsAhead as_of_date horizon_end) items
    → income_on items as_of_date ≡ zero_money
income_on_zero as_of_date horizon_end [] all = refl
income_on_zero as_of_date horizon_end (item ∷ items) all =
    let later = eqb-lt item.date as_of_date all.0.0 in
    rw (later, income_on_zero as_of_date horizon_end items all.1) (grind int_laws)

abbrev debit_part : ScheduledItem → Date → Option Money → Money
debit_part item t none = zero_money
debit_part item t (some amt) = on_day item.date t (abs_ℤ amt)

debits_on_zero :
    (amount_of : ScheduledItem → Option Money) (as_of_date horizon_end : Date)
    (items : List ScheduledItem)
    → All (IsAhead as_of_date horizon_end) items
    → debits_on amount_of items as_of_date ≡ zero_money
debits_on_zero amount_of as_of_date horizon_end [] all = refl
debits_on_zero amount_of as_of_date horizon_end (item ∷ items) all =
    let later = eqb-lt item.date as_of_date all.0.0 in
    let rest = debits_on_zero amount_of as_of_date horizon_end items all.1 in
    elim (Option-cases (amount_of item)) [
      | inl stopped ↦ rw (rest, ap (debit_part item as_of_date) stopped) (grind int_laws)
      | inr (amt, e) ↦ rw (rest, ap (debit_part item as_of_date) e, later) (grind int_laws)
    ]

-- A state with nothing on the request date has no net inflow on it.
pub AllAhead-net_on :
    (state : FinancialState) (changes : SpendingChanges) (as_of_date : Date)
    → AllAhead as_of_date state
    → net_on state changes state.request_date ≡ zero_money
unfolding net_on
AllAhead-net_on state changes as_of_date (e, debits, income, recurring_debits, recurring_income) =
    let horizon_end = as_of_date + forecast_horizon_days in
    rw
      (
        e,
        income_on_zero as_of_date horizon_end state.future_income income,
        income_on_zero as_of_date horizon_end state.recurring_income recurring_income,
        debits_on_zero (future_debit_amount changes) as_of_date horizon_end state.future_debits
            debits,
        debits_on_zero (recurring_debit_amount changes) as_of_date horizon_end
            state.recurring_debits recurring_debits,
      )
      (grind int_laws)

-- On a built state the safe amount is the largest: under any changes of spending, a positive amount
-- within the request can be paid on the request date and leave the balance at the minimum or above
-- through the horizon exactly when it is within the safe amount.
pub build_financial_state-safe_amount :
    (today : Date) (fixed_order variable_order : List String) (profile : FinancialProfileInput)
    (events : List CashflowEventInput) (as_of_date : Date) (request_id : String)
    (fx : Option FxEngine) (use_daily_burn : Bool) {state : FinancialState}
    (changes : SpendingChanges) (requested_amount amt : Money)
    → build_financial_state today fixed_order variable_order profile events as_of_date request_id fx
        use_daily_burn
      ≡ ok state
    → zero_money <ℤ amt
    → amt ≤ℤ requested_amount
    → (amt ≤ℤ compute_safe_amount state requested_amount changes)
      ↔ IsSolvent state.minimum_balance state changes ((state.request_date, amt) ∷ [])
build_financial_state-safe_amount today fixed_order variable_order profile events as_of_date
      request_id fx use_daily_burn {state} changes requested_amount amt e positive within =
    let ahead =
      build_financial_state-AllAhead today fixed_order variable_order profile events as_of_date
        request_id fx use_daily_burn e in
    let quiet = AllAhead-net_on state changes as_of_date ahead in
    compute_safe_amount_largest state changes requested_amount amt
      (omega (arith, ap pos_part quiet, ap neg_part quiet)) positive within
