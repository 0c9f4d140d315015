-- ===== src/Decision/SafeAmount.antt =====
-- buyorwait_engine/decision/safe_amount.py.
pub mod Single
pub mod Headroom
pub mod PlanSafety
use buy_or_wait_ai_advisor.Common.{
  Bool, Date, List, Money, Result, [], cent, err, if◌then◌else◌, leb, leb_ℤ, ltb, max_ℤ, min_ℤ,
  none, ok, select, some, value_error, zero_money, ◌-ℤ◌, ◌∷◌,
}
use buy_or_wait_ai_advisor.Domain.{FinancialState, PaymentPlan, SpendingChanges}
use buy_or_wait_ai_advisor.Ledger.Daily.{
  DayEntry, build_ledger, get_balance_on, min_balance_from, min_closing_of,
}

-- `headroom` of `compute_safe_amount`: the baseline minimum less the balance to keep.
unfoldable pub headroom : FinancialState → SpendingChanges → Money
headroom state changes = (build_ledger state changes []).minimum_closing -ℤ state.minimum_balance

unfoldable pub compute_safe_amount : FinancialState → Money → SpendingChanges → Money
unfolding headroom
compute_safe_amount state requested_amount changes =
    max_ℤ zero_money (min_ℤ requested_amount (headroom state changes))

-- `min_after` is `Inf` only where the date is out of range, and then the balance is missing too.
unfoldable pub compute_safe_amount_if_paid_on :
    FinancialState → Date → Money → SpendingChanges → Money
compute_safe_amount_if_paid_on state payment_date requested_amount changes =
    let baseline = build_ledger state changes [] in
    elim (get_balance_on baseline payment_date) [
      | none ↦ zero_money
      | some balance ↦
          let on_day = balance -ℤ state.minimum_balance in
          let least : Money = elim (min_balance_from baseline payment_date) [
            | none ↦ on_day
            | some min_after ↦ min_ℤ on_day (min_after -ℤ state.minimum_balance)
          ] in
          max_ℤ zero_money (min_ℤ requested_amount least)
    ]

-- `max(payments.keys())` of a plan with a first entry.
unfoldable pub plan_end : Date → PaymentPlan → Date
plan_end last [] = last
plan_end last ((dt, amt) ∷ plan) = plan_end (if ltb last dt then dt else last) plan

-- `[e for e in ledger.entries if e.dt <= plan_end]`
abbrev pub entries_until : Date → List DayEntry → List DayEntry
entries_until last = select (λ e. leb e.dt last)

-- `min` of no entry at all raises.
unfoldable pub is_plan_safe : FinancialState → PaymentPlan → SpendingChanges → Result Bool
is_plan_safe state [] changes =
    ok (leb_ℤ (state.minimum_balance -ℤ cent) (build_ledger state changes []).minimum_closing)
is_plan_safe state ((dt, amt) ∷ plan) changes =
    let last = plan_end dt plan in
    let ledger = build_ledger state changes ((dt, amt) ∷ plan) in
    elim (min_closing_of (entries_until last ledger.entries)) [
      | none ↦ err value_error
      | some least ↦ ok (leb_ℤ (state.minimum_balance -ℤ cent) least)
    ]
