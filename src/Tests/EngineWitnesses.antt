-- ===== src/Tests/EngineWitnesses.antt =====
-- The theorems on candidates, ranking, spending changes, risk and evaluations, at the sample purchase.
use buy_or_wait_ai_advisor.Common.{
  All, Date, List, Option, Result, [], arith, err, false, map_ok, none, ok, pos, refl, some, true,
  units, ℤ, ◌∷◌, ◌≡◌, ◌⊎◌,
}
use buy_or_wait_ai_advisor.Domain.{Verdict, full_payment, installments, low_risk, moderate_risk}
use buy_or_wait_ai_advisor.Ledger.Projection.{net_on}
use buy_or_wait_ai_advisor.Ledger.Solvency.{IsSolvent}
use buy_or_wait_ai_advisor.Decision.SafeAmount.Headroom.{compute_safe_amount-IsSolvent}
use buy_or_wait_ai_advisor.Decision.Spending.{all_debit_items, get_eligible_changes}
use buy_or_wait_ai_advisor.Decision.Spending.Laws.{HasSource, IsFresh, get_eligible_changes_sound}
use buy_or_wait_ai_advisor.Decision.Candidates.{
  Candidate, CandidateInput, fallback_candidate, generate_candidates, with_earliest,
}
use buy_or_wait_ai_advisor.Decision.Candidates.Plans.{IsJustified, generate_candidates-IsJustified}
use buy_or_wait_ai_advisor.Decision.Ranker.{Decision, is_rankable, select_best_candidate}
use buy_or_wait_ai_advisor.Decision.Ranker.Best.{
  IsBest, Outranks, select_best_candidate-IsBest, select_best_candidate-Outranks,
}
use buy_or_wait_ai_advisor.Risk.Stress.{build_stressed_state}
use buy_or_wait_ai_advisor.Risk.Stress.Laws.{IsSolvent-stressed}
use buy_or_wait_ai_advisor.Risk.Classifier.{classify_risk}
use buy_or_wait_ai_advisor.Risk.Classifier.Tiers.{TierMeaning, classify_risk-TierMeaning}
use buy_or_wait_ai_advisor.Engine.{DecisionResult, decide, evaluate_purchase, input_of}
use buy_or_wait_ai_advisor.Tests.Samples.{late_state, sample_purchase, sample_state}
use buy_or_wait_ai_advisor.Tests.Runs.{engine_run}
use buy_or_wait_ai_advisor.Engine.Policies.{IsReport, evaluate_purchase-IsReport}

abbrev sample_input : CandidateInput
sample_input = input_of sample_state sample_purchase []

abbrev listed : {A : Type 0} → Result (List A) → List A
listed (ok xs) = xs
listed (err e) = []

generate_candidates-IsJustified_example :
    All (IsJustified (with_earliest sample_input)) (listed (generate_candidates sample_input))
unfolding engine_run
generate_candidates-IsJustified_example = generate_candidates-IsJustified sample_input refl

-- A dear plan by the deadline, a cheap one after it, and the fallback.
abbrev dear : Candidate
dear = record {
  method = full_payment;
  payment_option_id = none;
  payment_plan = (739_000, units 300) ∷ [];
  spending_changes = [];
  total_payable = units 300;
  num_payments = 1;
  first_payment_date = some 739_000;
  last_payment_date = some 739_000;
  completes_by_deadline = true;
  is_feasible = true;
}

abbrev cheap : Candidate
cheap = record dear {
  method = installments;
  total_payable = units 290;
  completes_by_deadline = false;
}

abbrev ranked : List Candidate
ranked = cheap ∷ dear ∷ fallback_candidate [] ∷ []

select_best_candidate-IsBest_example : IsBest ranked dear
unfolding engine_run fallback_candidate select_best_candidate
select_best_candidate-IsBest_example = select_best_candidate-IsBest ranked refl

select_best_candidate-Outranks_example : All (λ y. is_rankable y ≡ true → Outranks dear y) ranked
unfolding engine_run fallback_candidate select_best_candidate
select_best_candidate-Outranks_example = select_best_candidate-Outranks ranked refl

get_eligible_changes_sound_example :
    let options = get_eligible_changes sample_state in
    All (HasSource sample_state (all_debit_items sample_state)) options × IsFresh [] options
get_eligible_changes_sound_example = get_eligible_changes_sound sample_state

IsSolvent-stressed_example : IsSolvent (units 200) sample_state [] ((739_000, units 300) ∷ [])
unfolding engine_run
IsSolvent-stressed_example =
    IsSolvent-stressed sample_state none (units 200) ((739_000, units 300) ∷ []) (
      compute_safe_amount-IsSolvent (build_stressed_state sample_state none) [] (units 300)
        (units 300) (omega arith) (omega arith))

classify_risk-TierMeaning_example : TierMeaning sample_state none low_risk (units 300)
unfolding engine_run net_on
classify_risk-TierMeaning_example =
    classify_risk-TierMeaning sample_state none (units 300) "r" (omega arith) (omega arith)

-- What is said of a result, where there is one.
abbrev OfResult : {A : Type 0} → (A → Type 0) → Result A → Type 0
OfResult P (ok a) = P a
OfResult P (err e) = Unit

abbrev waited : Result DecisionResult
waited = evaluate_purchase late_state sample_purchase none "shadow_audit_only"

waits_ten_days :
    map_ok {B = Verdict × Option Date × List (Date × ℤ)}
      (λ r. (r.verdict, r.earliest_date_for_full_payment, r.payment_plan))
      waited
    ≡ ok (Verdict.wait, some 739_010, (739_010, pos 30_000) ∷ [])
unfolding engine_run
waits_ten_days = refl

evaluate_purchase-IsReport_example :
    OfResult
      (λ r.
        (d : Decision) × IsReport late_state sample_purchase none r d
        × ((decide late_state sample_purchase ≡ ok d)
            ⊎ ((decide (build_stressed_state late_state none) sample_purchase ≡ ok d)
                × ((classify_risk late_state
                      (build_stressed_state late_state none)
                      (units 300)
                      "r"
                      none).risk_tier
                    ≡ moderate_risk))))
      waited
unfolding engine_run
evaluate_purchase-IsReport_example =
    evaluate_purchase-IsReport late_state sample_purchase none "shadow_audit_only" refl
