-- ===== src/Engine/Policies.antt =====
-- Evaluations under every policy: which decision is returned, and what its verdict promises.
use buy_or_wait_ai_advisor.Common.{
  >>=-eq-ok, Bool-cases, Option, String, [], ap, arith, inl, inr, nat_eq, ok, ok-injective, pair_eq,
  string_eq, sym, zero_money, ◌<ℤ◌, ◌==◌, ◌>>=◌, ◌∙◌, ◌≡◌, ◌⊎◌,
}
use buy_or_wait_ai_advisor.Domain.{FinancialState, PurchaseProposal, RiskTier, buy, moderate_risk}
use buy_or_wait_ai_advisor.Decision.Ranker.{Decision}
use buy_or_wait_ai_advisor.Risk.Stress.{RiskCalibrationConfig, build_stressed_state}
use buy_or_wait_ai_advisor.Risk.Classifier.{RiskProfile, classify_risk, to_result}
use buy_or_wait_ai_advisor.Risk.Policy.{apply_risk_policy}
use buy_or_wait_ai_advisor.Engine.{
  DecisionResult, decide, evaluate_purchase, final_decision, result_of, version_of,
}
use buy_or_wait_ai_advisor.Risk.Stress.Laws.{IsSolvent-stressed}
use buy_or_wait_ai_advisor.Engine.Safety.{PaysSafely, WaitsSafely, decide_buy, verdict_of}

-- Only the balanced and the strict policy, and only at a moderate risk, return the stressed decision.
pub apply_risk_policy-cases :
    (v2 p90 : Decision) (tier : RiskTier) (policy : String)
    → (apply_risk_policy v2 p90 tier policy ≡ v2)
      ⊎ ((apply_risk_policy v2 p90 tier policy ≡ p90) × (tier ≡ moderate_risk))
unfolding apply_risk_policy
apply_risk_policy-cases v2 p90 tier policy = ground arith

module _ (state : FinancialState) (purchase : PurchaseProposal)
    (config : Option RiskCalibrationConfig) where
  abbrev stressed : FinancialState
  stressed = build_stressed_state state config

  abbrev profile : RiskProfile
  profile = classify_risk state stressed purchase.requested_amount purchase.request_id config

  -- The decision that a result reports, and the state that it was made on.
  abbrev pub IsReport : DecisionResult → Decision → Type 0
  IsReport res d = res ≡ result_of d purchase (to_result profile (version_of config))

  final_decision-origin :
      (policy : String) (v2 : Decision) {d : Decision}
      → decide state purchase ≡ ok v2
      → final_decision state stressed purchase v2 profile.risk_tier policy ≡ ok d
      → (decide state purchase ≡ ok d)
        ⊎ ((decide stressed purchase ≡ ok d) × (profile.risk_tier ≡ moderate_risk))
  unfolding final_decision
  final_decision-origin policy v2 {d} made final =
      elim (Bool-cases (policy == "shadow_audit_only")) [
        | inl shadow ↦ inl (made ∙ (rw (shadow, final_decision) at final))
        | inr other ↦
            let later : (do
              p90 ← decide stressed purchase
              ok (apply_risk_policy v2 p90 profile.risk_tier policy))
                ≡ ok d =
              rw (other, final_decision) at final in
            let (p90, under_stress, applied) = >>=-eq-ok (decide stressed purchase) _ later in
            elim (apply_risk_policy-cases v2 p90 profile.risk_tier policy) [
              | inl same ↦ inl (made ∙ ap ok (sym same) ∙ applied)
              | inr (other_one, tier) ↦ inr (under_stress ∙ ap ok (sym other_one) ∙ applied, tier)
            ]
      ]

  -- An evaluation reports the decision on the state as it is, or, at a moderate risk, the decision on
  -- the stressed state.
  pub evaluate_purchase-IsReport :
      (policy : String) {res : DecisionResult}
      → evaluate_purchase state purchase config policy ≡ ok res
      → (d : Decision) × IsReport res d
        × ((decide state purchase ≡ ok d)
            ⊎ ((decide stressed purchase ≡ ok d) × (profile.risk_tier ≡ moderate_risk)))
  unfolding evaluate_purchase
  evaluate_purchase-IsReport policy {res} e =
      let (v2, made, rest) = >>=-eq-ok (decide state purchase) _ e in
      let (d, final, reported) =
        >>=-eq-ok (final_decision state stressed purchase v2 profile.risk_tier policy) _ rest in
      (d, sym (ok-injective reported), final_decision-origin policy v2 made final)

  report-verdict :
      {res : DecisionResult} (d : Decision) → IsReport res d → res.verdict ≡ verdict_of purchase d
  unfolding result_of
  report-verdict d report = ap (λ r. r.verdict) report

  unstress :
      PaysSafely stressed purchase [] stressed.request_date
      → PaysSafely state purchase [] state.request_date
  unfolding build_stressed_state
  unstress = IsSolvent-stressed state config state.minimum_balance _

  -- Under every policy a `BUY` means that the whole amount, paid on the request date with no change of
  -- spending, keeps the projected balance at the minimum or above on every day of the horizon.
  pub evaluate_purchase-buy :
      (policy : String) {res : DecisionResult}
      → evaluate_purchase state purchase config policy ≡ ok res
      → res.verdict ≡ buy
      → zero_money <ℤ purchase.requested_amount
      → PaysSafely state purchase [] state.request_date
  evaluate_purchase-buy policy {res} e says positive =
      let (d, report, origin) = evaluate_purchase-IsReport policy e in
      let verdict : verdict_of purchase d ≡ buy = sym (report-verdict d report) ∙ says in
      elim origin [
        | inl made ↦ decide_buy state purchase made verdict positive
        | inr (made, _) ↦ unstress (decide_buy stressed purchase made verdict positive)
      ]

  -- What a result says of waiting, on the state as it is or on the stressed one.
  abbrev pub ResultWaits : FinancialState → DecisionResult → Type 0
  ResultWaits used res =
      WaitsSafely used purchase res.recommended_payment_method res.payment_plan
        res.spending_changes_needed res.earliest_date_for_full_payment
