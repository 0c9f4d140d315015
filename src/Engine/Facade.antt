-- ===== src/Engine/Facade.antt =====
-- `BuyOrWaitEngine` of buyorwait_engine/engine.py.
use mathlib.Core.Path.{subst}
use buy_or_wait_ai_advisor.Common.{
  >>=-eq-ok, Date, List, Option, Result, String, [], int_laws, none, ok, some, true, zero_money,
  ◌<ℤ◌, ◌>>=◌, ◌≡◌, ◌≤ℤ◌,
}
use buy_or_wait_ai_advisor.Domain.{
  CashflowEventInput, FinancialProfileInput, FinancialState, PurchaseProposal, buy,
}
use buy_or_wait_ai_advisor.Currency.Fx.{FxEngine, fx_engine}
use buy_or_wait_ai_advisor.Risk.Stress.{
  RiskCalibrationConfig, current_calibration_version, default_p90_stress_factors,
}
use buy_or_wait_ai_advisor.State.Builder.{build_financial_state}
use buy_or_wait_ai_advisor.State.Builder.Ahead.{build_financial_state-AllAhead}
use buy_or_wait_ai_advisor.State.Builder.Quiet.{build_financial_state-safe_amount}
use buy_or_wait_ai_advisor.Engine.{DecisionResult, evaluate_purchase}
use buy_or_wait_ai_advisor.Engine.Safety.{PaysSafely}
use buy_or_wait_ai_advisor.Engine.Policies.{evaluate_purchase-buy}
use buy_or_wait_ai_advisor.Decision.SafeAmount.{compute_safe_amount}

-- The class and its `evaluate`, from a profile and its events.
pub record BuyOrWaitEngine : Type 0 where
  pub risk_config : RiskCalibrationConfig
  pub risk_policy : String
  pub fx : FxEngine

-- `RiskCalibrationConfig()`
abbrev pub default_config : RiskCalibrationConfig
default_config = record {
  version = current_calibration_version;
  stress_factors = default_p90_stress_factors;
}

abbrev or_default : {A : Type 0} → A → Option A → A
or_default default none = default
or_default default (some a) = a

-- `__init__`, with `None` for what is left out.
unfoldable pub buy_or_wait_engine :
    Option RiskCalibrationConfig → Option String → Option FxEngine → BuyOrWaitEngine
unfolding default_p90_stress_factors fx_engine
buy_or_wait_engine risk_config risk_policy fx = record {
  risk_config = or_default default_config risk_config;
  risk_policy = or_default "shadow_audit_only" risk_policy;
  fx = or_default (fx_engine []) fx;
}

unfoldable pub evaluate :
    Date
    → List String
    → List String
    → BuyOrWaitEngine
    → FinancialProfileInput
    → List CashflowEventInput
    → PurchaseProposal
    → Result DecisionResult
unfolding build_financial_state evaluate_purchase
evaluate today fixed_order variable_order engine profile events purchase = do
  state ←
      build_financial_state today fixed_order variable_order profile events purchase.request_date
        purchase.request_id (some engine.fx) true
  evaluate_purchase state purchase (some engine.risk_config) engine.risk_policy

-- From a profile and its events: a `BUY` means that a state was built, that the whole amount, paid on
-- the request date with no change of spending, keeps its projected balance at the minimum or above on
-- every day of the horizon, and that the amount is within its safe amount, under every policy and
-- whatever the order of the categories.
pub evaluate-buy :
    (today : Date) (fixed_order variable_order : List String) (engine : BuyOrWaitEngine)
    (profile : FinancialProfileInput) (events : List CashflowEventInput)
    (purchase : PurchaseProposal) {res : DecisionResult}
    → evaluate today fixed_order variable_order engine profile events purchase ≡ ok res
    → res.verdict ≡ buy
    → zero_money <ℤ purchase.requested_amount
    → (state : FinancialState) × (build_financial_state today fixed_order variable_order profile
          events purchase.request_date purchase.request_id
          (some engine.fx)
          true
        ≡ ok state)
      × PaysSafely state purchase [] purchase.request_date
      × (purchase.requested_amount ≤ℤ compute_safe_amount state purchase.requested_amount [])
unfolding evaluate
evaluate-buy today fixed_order variable_order engine profile events purchase e says positive =
    let (state, built, evaluated) = >>=-eq-ok _ _ e in
    let safe =
      evaluate_purchase-buy state purchase (some engine.risk_config) engine.risk_policy evaluated
        says positive in
    let ahead =
      build_financial_state-AllAhead today fixed_order variable_order profile events
        purchase.request_date purchase.request_id (some engine.fx) true built in
    let largest =
      build_financial_state-safe_amount today fixed_order variable_order profile events
        purchase.request_date purchase.request_id (some engine.fx) true [] purchase.requested_amount
        purchase.requested_amount built positive (grind int_laws) in
    (state, built, subst (PaysSafely state purchase []) ahead.0 safe, largest.1 safe)
