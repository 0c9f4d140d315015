-- ===== src/Ledger/Projection.antt =====
-- The projected balance, stated item by item and day by day with no map and no loop: what the ledger
-- of buyorwait_engine/forecast/ledger.py is to compute.
use buy_or_wait_ai_advisor.Common.{
  Date, List, Money, Option, [], abs_ℤ, if◌then◌else◌, leb_ℤ, nat_eq, none, some, string_eq, suc,
  zero, zero_money, ℕ, ◌+ℤ◌, ◌+◌, ◌-ℤ◌, ◌==◌, ◌∷◌,
}
use buy_or_wait_ai_advisor.Domain.{FinancialState, PaymentPlan, ScheduledItem, SpendingChanges}
use buy_or_wait_ai_advisor.Ledger.Daily.{future_debit_amount, recurring_debit_amount}

-- The part of a dated amount that falls on day `t`.
abbrev pub on_day : Date → Date → Money → Money
on_day dt t amt = if dt == t then amt else zero_money

-- An amount where it is positive.
abbrev pub gain : Money → Money
gain amt = if leb_ℤ amt zero_money then zero_money else amt

abbrev pub debits_on : (ScheduledItem → Option Money) → List ScheduledItem → Date → Money
debits_on amount_of [] t = zero_money
debits_on amount_of (item ∷ items) t =
    elim (amount_of item) [ none ↦ zero_money | some amt ↦ on_day item.date t (abs_ℤ amt) ]
    +ℤ debits_on amount_of items t

abbrev pub income_on : List ScheduledItem → Date → Money
income_on [] t = zero_money
income_on (item ∷ items) t = on_day item.date t (gain item.amount) +ℤ income_on items t

abbrev pub payments_on : PaymentPlan → Date → Money
payments_on [] t = zero_money
payments_on ((dt, amt) ∷ plan) t = on_day dt t (gain amt) +ℤ payments_on plan t

-- Credits less debits of a day, before any payment.
unfoldable pub net_on : FinancialState → SpendingChanges → Date → Money
net_on state changes t =
    income_on state.future_income t
    +ℤ income_on state.recurring_income t
    -ℤ (debits_on (future_debit_amount changes) state.future_debits t
        +ℤ debits_on (recurring_debit_amount changes) state.recurring_debits t)

-- A daily amount over the `n` days from `t` on.
unfoldable pub over_days : (Date → Money) → Date → ℕ → Money
over_days f t zero = zero_money
over_days f t (suc n) = f t +ℤ over_days f (t + 1) n

-- The balance at the close of day `request_date + i`.
unfoldable pub projected_balance : FinancialState → SpendingChanges → PaymentPlan → ℕ → Money
projected_balance state changes plan i =
    state.starting_balance
    +ℤ over_days (net_on state changes) state.request_date (suc i)
    -ℤ over_days (payments_on plan) state.request_date (suc i)
