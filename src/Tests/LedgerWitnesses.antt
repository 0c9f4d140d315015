-- ===== src/Tests/LedgerWitnesses.antt =====
-- The theorems on the ledger, the safe amounts and dates, at the sample state.
use buy_or_wait_ai_advisor.Common.{
  All-all_of, All-get_elem?, Date, [], all_of, arith, err, get_elem?, leb_ℤ, leb_ℤ→le, length, none,
  ok, refl, some, true, units, value_error, zero_money, ℕ, ◌+◌, ◌<◌, ◌↔◌, ◌∷◌, ◌≡◌, ◌≤ℤ◌, ◌≤◌,
}
use buy_or_wait_ai_advisor.Domain.{FinancialState}
use buy_or_wait_ai_advisor.Ledger.Daily.{DayEntry, build_ledger}
use buy_or_wait_ai_advisor.Ledger.Projection.{net_on, projected_balance}
use buy_or_wait_ai_advisor.Ledger.Solvency.{
  IsSolvent, build_ledger-entries, minimum_closing-IsSolvent,
}
use buy_or_wait_ai_advisor.Decision.SafeAmount.{compute_safe_amount, is_plan_safe, plan_end}
use buy_or_wait_ai_advisor.Decision.SafeAmount.Headroom.{
  compute_safe_amount-IsSolvent, compute_safe_amount_ignores_inflow, compute_safe_amount_largest,
}
use buy_or_wait_ai_advisor.Decision.SafeAmount.PlanSafety.{
  IsSafePlan, is_plan_safe_iff, is_plan_safe_raises,
}
use buy_or_wait_ai_advisor.Decision.EarliestDate.{find_earliest_full_payment_date}
use buy_or_wait_ai_advisor.Decision.EarliestDate.Laws.{
  IsSafeOn, find_earliest-none, find_earliest-some,
}
use buy_or_wait_ai_advisor.Tests.Samples.{rent_item, sample_state}
use buy_or_wait_ai_advisor.Tests.Runs.{engine_run, ledger_run}

build_ledger-entries_example :
    let ledger = build_ledger sample_state [] [] in
    (length ledger.entries ≡ 91)
    × ((i : ℕ)
        → i ≤ 90
        → (e : DayEntry) × (get_elem? ledger.entries i ≡ some e)
          × (e.dt ≡ 739_000 + i)
          × (e.closing ≡ projected_balance sample_state [] [] i))
build_ledger-entries_example = build_ledger-entries sample_state [] []

minimum_closing-IsSolvent_example :
    (units 900 ≤ℤ (build_ledger sample_state [] []).minimum_closing)
    ↔ IsSolvent (units 900) sample_state [] []
minimum_closing-IsSolvent_example = minimum_closing-IsSolvent sample_state [] [] (units 900)

compute_safe_amount-IsSolvent_example :
    IsSolvent (units 200) sample_state [] ((739_000, units 700) ∷ [])
unfolding ledger_run
compute_safe_amount-IsSolvent_example =
    compute_safe_amount-IsSolvent sample_state [] (units 900) (units 700) (omega arith)
      (omega arith)

compute_safe_amount_largest_example :
    (units 700 ≤ℤ compute_safe_amount sample_state (units 900) [])
    ↔ IsSolvent (units 200) sample_state [] ((739_000, units 700) ∷ [])
unfolding ledger_run net_on
compute_safe_amount_largest_example =
    compute_safe_amount_largest sample_state [] (units 900) (units 700) (omega arith) (omega arith)
      (omega arith)

-- An income of 500 on the request date, on a balance of exactly the minimum.
abbrev payday_state : FinancialState
payday_state = record sample_state {
  starting_balance = units 200;
  recurring_debits = [];
  recurring_income = record rent_item { date = 739_000; amount = units 500 } ∷ [];
}

payday_closings :
    all_of (λ e. leb_ℤ (units 700) e.closing) (build_ledger payday_state [] []).entries ≡ true
unfolding ledger_run
payday_closings = refl

payday_projected : (i : ℕ) → i ≤ 90 → units 700 ≤ℤ projected_balance payday_state [] [] i
payday_projected i h =
    let entries = (build_ledger payday_state [] []).entries in
    let (e, at, _, closes) = (build_ledger-entries payday_state [] []).1 i h in
    let high = All-all_of (λ x. leb_ℤ (units 700) x.closing) entries payday_closings in
    rw (← closes) (
      leb_ℤ→le (units 700) e.closing
        (All-get_elem? (λ x. leb_ℤ (units 700) x.closing ≡ true) entries i high at))

compute_safe_amount_ignores_inflow_example :
    (compute_safe_amount payday_state (units 500) [] ≡ zero_money)
    × IsSolvent (units 200) payday_state [] ((739_000, units 500) ∷ [])
unfolding ledger_run
compute_safe_amount_ignores_inflow_example =
    compute_safe_amount_ignores_inflow payday_state [] (units 500) (units 500) refl (omega arith)
      (omega arith) payday_projected

is_plan_safe_iff_example :
    (is_plan_safe sample_state ((739_000, units 300) ∷ []) [] ≡ ok true)
    ↔ ((739_000 ≤ 739_000) × IsSafePlan sample_state [] 739_000 (units 300) [])
unfolding plan_end
is_plan_safe_iff_example = is_plan_safe_iff sample_state [] 739_000 (units 300) []

is_plan_safe_raises_example :
    (is_plan_safe sample_state ((738_000, units 300) ∷ []) [] ≡ err value_error)
    ↔ (738_000 < 739_000)
unfolding plan_end
is_plan_safe_raises_example = is_plan_safe_raises sample_state [] 738_000 (units 300) []

find_earliest-some_example :
    (739_000 ≤ 739_000)
    × (739_000 ≤ 739_000 + 90)
    × IsSafeOn sample_state (units 300) [] 739_000
    × ((t : Date) → 739_000 ≤ t → t < 739_000 → ¬ IsSafeOn sample_state (units 300) [] t)
unfolding engine_run
find_earliest-some_example = find_earliest-some sample_state (units 300) [] 739_000 refl

find_earliest-none_example :
    (find_earliest_full_payment_date sample_state (units 900) [] ≡ none)
    ↔ ((t : Date) → 739_000 ≤ t → t ≤ 739_000 + 90 → ¬ IsSafeOn sample_state (units 900) [] t)
find_earliest-none_example = find_earliest-none sample_state (units 900) []
