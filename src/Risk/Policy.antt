-- ===== src/Risk/Policy.antt =====
-- buyorwait_engine/risk/policy.py. A copy of a decision differs from it in the explanation alone,
-- which is left out.
use buy_or_wait_ai_advisor.Common.{
  Bool, String, false, if◌then◌else◌, nat_eq, string_eq, true, ◌==◌,
}
use buy_or_wait_ai_advisor.Domain.{
  PaymentMethod, RiskTier, full_payment, high_risk, installments, low_risk, moderate_risk,
  partial_payment,
}
use buy_or_wait_ai_advisor.Decision.Ranker.{Decision}

abbrev pub pays_now : PaymentMethod → Bool
pays_now full_payment = true
pays_now partial_payment = true
pays_now _ = false

abbrev pub is_installments : PaymentMethod → Bool
is_installments installments = true
is_installments _ = false

-- The balanced policy at a moderate risk.
abbrev pub risk_adaptive : Decision → Decision → Decision
risk_adaptive v2_decision v3_p90_decision =
    if is_installments v3_p90_decision.recommended_payment_method
    then v3_p90_decision
    else if pays_now v2_decision.recommended_payment_method
    then v3_p90_decision
    else v2_decision

abbrev pub by_tier : RiskTier → String → Decision → Decision → Decision
by_tier low_risk policy v2_decision v3_p90_decision = v2_decision
by_tier moderate_risk policy v2_decision v3_p90_decision =
    if policy == "risk_adaptive"
    then risk_adaptive v2_decision v3_p90_decision
    else if policy == "conservative_solvency"
    then v3_p90_decision
    else v2_decision
by_tier high_risk policy v2_decision v3_p90_decision = v2_decision

unfoldable pub apply_risk_policy : Decision → Decision → RiskTier → String → Decision
apply_risk_policy v2_decision v3_p90_decision risk_tier policy =
    if policy == "shadow_audit_only"
    then v2_decision
    else by_tier risk_tier policy v2_decision v3_p90_decision
