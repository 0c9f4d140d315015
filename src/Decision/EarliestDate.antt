-- ===== src/Decision/EarliestDate.antt =====
-- buyorwait_engine/decision/earliest_date.py.
pub mod Laws
use buy_or_wait_ai_advisor.Common.{
  Bool, Date, Money, Option, [], if◌then◌else◌, leb_ℤ, none, some, suc, zero, ℕ, ◌+◌, ◌∷◌,
}
use buy_or_wait_ai_advisor.Domain.{FinancialState, SpendingChanges}
use buy_or_wait_ai_advisor.Ledger.Daily.{build_ledger}

-- `while current <= end: if test: return current; current += 1 day`, by the days that are left.
unfoldable pub first_day : (Date → Bool) → ℕ → Date → Option Date
first_day test zero current = none
first_day test (suc left) current =
    let rest = first_day test left (current + 1) in if test current then some current else rest

-- The test of the scan: the whole amount paid on that one day.
unfoldable pub pays_safely_on : FinancialState → Money → SpendingChanges → Date → Bool
pays_safely_on state requested_amount changes current =
    leb_ℤ state.minimum_balance
      (build_ledger state changes ((current, requested_amount) ∷ [])).minimum_closing

unfoldable pub find_earliest_full_payment_date :
    FinancialState → Money → SpendingChanges → Option Date
find_earliest_full_payment_date state requested_amount changes =
    first_day (pays_safely_on state requested_amount changes) 91 state.request_date
