-- ===== src/Engine.antt =====
-- buyorwait_engine/engine.py.
pub mod Verdicts
pub mod Safety
pub mod Policies
pub mod Facade
use buy_or_wait_ai_advisor.Common.{
  Date, List, Money, Option, Result, String, [], flat_map_result, if◌then◌else◌, nat_eq, none, ok,
  some, string_eq, ℤ, ◌&&◌, ◌==◌, ◌>>=◌,
}
use buy_or_wait_ai_advisor.Domain.{
  AffordabilityStatus, FinancialState, PaymentMethod, PurchaseProposal, RiskTier, SpendingChanges,
  Verdict, buy, full_payment, installments, partial_payment, safer_payment,
}
use buy_or_wait_ai_advisor.Decision.SafeAmount.{compute_safe_amount}
use buy_or_wait_ai_advisor.Decision.EarliestDate.{find_earliest_full_payment_date}
use buy_or_wait_ai_advisor.Decision.Spending.{ChangeText, enumerate_spending_change_combos}
use buy_or_wait_ai_advisor.Decision.Candidates.{Candidate, CandidateInput, generate_candidates}
use buy_or_wait_ai_advisor.Decision.Ranker.{Decision, is_date, is_empty, make_decision}
use buy_or_wait_ai_advisor.Risk.Stress.{
  RiskCalibrationConfig, build_stressed_state, current_calibration_version,
}
use buy_or_wait_ai_advisor.Risk.Classifier.{RiskAssessmentResult, classify_risk, to_result}
use buy_or_wait_ai_advisor.Risk.Policy.{apply_risk_policy}

-- `_derive_verdict`; the changes are the parts of their text.
unfoldable pub derive_verdict : PaymentMethod → List ChangeText → Date → Option Date → Verdict
derive_verdict PaymentMethod.not_recommended changes request_date first_date =
    Verdict.not_recommended
derive_verdict PaymentMethod.wait changes request_date first_date = Verdict.wait
derive_verdict full_payment changes request_date first_date =
    if is_empty changes && is_date first_date request_date then buy else safer_payment
derive_verdict installments changes request_date first_date = safer_payment
derive_verdict partial_payment changes request_date first_date = safer_payment

-- The body of the loop over the combinations of spending changes.
abbrev pub input_of : FinancialState → PurchaseProposal → SpendingChanges → CandidateInput
input_of state purchase changes = record {
  state = state;
  req_amount = purchase.requested_amount;
  req_date = purchase.request_date;
  completion_date = some purchase.desired_completion_date;
  allows_partial = purchase.allows_partial_payment;
  payment_options = purchase.payment_options;
  spending_changes = changes;
  safe_amount = compute_safe_amount state purchase.requested_amount changes;
  earliest_full_date = find_earliest_full_payment_date state purchase.requested_amount changes;
}

unfoldable pub all_candidates : FinancialState → PurchaseProposal → Result (List Candidate)
all_candidates state purchase =
    flat_map_result (λ changes. generate_candidates (input_of state purchase changes))
      (enumerate_spending_change_combos state 3)

-- Steps 1 to 3, on the state as it is or on the stressed one.
unfoldable pub decide : FinancialState → PurchaseProposal → Result Decision
unfolding all_candidates
decide state purchase = do
  candidates ← all_candidates state purchase
  ok (
      make_decision purchase.request_id state candidates purchase.requested_amount
        purchase.request_date (compute_safe_amount state purchase.requested_amount [])
        (find_earliest_full_payment_date state purchase.requested_amount []))

pub record DecisionResult : Type 0 where
  pub request_id : String
  pub verdict : Verdict
  pub amount_safe_to_pay : Money
  pub affordability_status : AffordabilityStatus
  pub recommended_payment_method : PaymentMethod
  pub payment_plan : List (Date × ℤ)
  pub earliest_date_for_full_payment : Option Date
  pub spending_changes_needed : List ChangeText
  pub risk_assessment : RiskAssessmentResult

-- `first_payment_date` of the best candidate, if there is one.
abbrev pub first_date_of : Decision → Option Date
first_date_of decision = elim decision.best_candidate [
  | none ↦ none
  | some c ↦ c.first_payment_date
]

unfoldable pub result_of : Decision → PurchaseProposal → RiskAssessmentResult → DecisionResult
unfolding derive_verdict
result_of decision purchase risk = record {
  request_id = purchase.request_id;
  verdict =
      derive_verdict decision.recommended_payment_method decision.spending_changes_needed
        purchase.request_date (first_date_of decision);
  amount_safe_to_pay = decision.amount_safe_to_pay;
  affordability_status = decision.affordability_status;
  recommended_payment_method = decision.recommended_payment_method;
  payment_plan = decision.payment_plan;
  earliest_date_for_full_payment = decision.earliest_date_for_full_payment;
  spending_changes_needed = decision.spending_changes_needed;
  risk_assessment = risk;
}

abbrev pub version_of : Option RiskCalibrationConfig → String
version_of none = current_calibration_version
version_of (some config) = config.version

-- Under the shadow policy the stressed decision is not computed, so it cannot raise either.
unfoldable pub final_decision :
    FinancialState
    → FinancialState
    → PurchaseProposal
    → Decision
    → RiskTier
    → String
    → Result Decision
final_decision state stressed purchase v2_decision tier risk_policy =
    if risk_policy == "shadow_audit_only" then ok v2_decision else (do
      stressed_decision ← decide stressed purchase
      ok (apply_risk_policy v2_decision stressed_decision tier risk_policy))

unfoldable pub evaluate_purchase :
    FinancialState
    → PurchaseProposal
    → Option RiskCalibrationConfig
    → String
    → Result DecisionResult
evaluate_purchase state purchase risk_config risk_policy = do
  v2_decision ← decide state purchase
  let stressed = build_stressed_state state risk_config
  let risk = classify_risk state stressed purchase.requested_amount purchase.request_id risk_config
  decision ← final_decision state stressed purchase v2_decision risk.risk_tier risk_policy
  ok (result_of decision purchase (to_result risk (version_of risk_config)))
