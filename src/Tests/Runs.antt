-- ===== src/Tests/Runs.antt =====
-- Runs of the engine on the sample inputs.
use buy_or_wait_ai_advisor.Common.{
  [], abs_ℤ, arith, divide_half_even, divide_signed, has_text, head_of, insert, lookup, lookup_or,
  map_ok, max_ℤ, min_ℤ, nat_eq, negate, none, ok, pair_eq, refl, sort_by, string_eq, units, ℕ, ◌*ℤ◌,
  ◌+ℤ◌, ◌-ℤ◌, ◌≡◌,
}
use buy_or_wait_ai_advisor.Domain.{buy}
use buy_or_wait_ai_advisor.Ledger.Daily.{
  add_debits, add_income, add_payments, build_ledger, change_for, future_debit_amount, lower_of,
  min_closing_of, recurring_debit_amount,
}
use buy_or_wait_ai_advisor.Decision.SafeAmount.{compute_safe_amount, is_plan_safe, plan_end}
use buy_or_wait_ai_advisor.Decision.EarliestDate.{
  find_earliest_full_payment_date, first_day, pays_safely_on,
}
use buy_or_wait_ai_advisor.Decision.Spending.{
  enumerate_spending_change_combos, format_spending_changes,
}
use buy_or_wait_ai_advisor.Decision.Candidates.{generate_candidates}
use buy_or_wait_ai_advisor.Decision.Ranker.{make_decision, rank_key}
use buy_or_wait_ai_advisor.Risk.Stress.{build_stressed_state, default_p90_stress_factors}
use buy_or_wait_ai_advisor.Risk.Classifier.{classify_risk, to_result}
use buy_or_wait_ai_advisor.Risk.Policy.{apply_risk_policy}
use buy_or_wait_ai_advisor.Engine.{
  all_candidates, decide, derive_verdict, evaluate_purchase, final_decision, result_of,
}
use buy_or_wait_ai_advisor.Engine.Policies.{evaluate_purchase-buy}
use buy_or_wait_ai_advisor.Tests.Samples.{sample_purchase, sample_state}
use buy_or_wait_ai_advisor.Engine.Safety.{PaysSafely}

-- All that a run of the ledger computes with.
unfoldable pub ledger_run : ℕ
unfolding build_ledger lookup lookup_or insert abs_ℤ ◌+ℤ◌ ◌-ℤ◌ negate min_ℤ max_ℤ change_for
    add_debits add_income add_payments recurring_debit_amount future_debit_amount has_text
    compute_safe_amount min_closing_of lower_of is_plan_safe plan_end divide_signed divide_half_even
ledger_run = 0

-- All that an evaluation computes with.
unfoldable pub engine_run : ℕ
unfolding ledger_run find_earliest_full_payment_date first_day pays_safely_on
    enumerate_spending_change_combos generate_candidates make_decision rank_key sort_by head_of
    format_spending_changes evaluate_purchase decide final_decision result_of build_stressed_state
    classify_risk to_result default_p90_stress_factors apply_risk_policy derive_verdict
    all_candidates ◌*ℤ◌
engine_run = 0

safe_sample : compute_safe_amount sample_state (units 900) [] ≡ units 700
unfolding ledger_run
safe_sample = refl

buy_sample :
    map_ok
      (λ r. r.verdict)
      (evaluate_purchase sample_state sample_purchase none "shadow_audit_only")
    ≡ ok buy
unfolding engine_run
buy_sample = refl

evaluate_purchase-buy_example : PaysSafely sample_state sample_purchase [] 739_000
unfolding engine_run
evaluate_purchase-buy_example =
    evaluate_purchase-buy sample_state sample_purchase none "shadow_audit_only" refl refl
      (omega arith)
