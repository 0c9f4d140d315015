-- ===== src/Risk/Classifier.antt =====
-- buyorwait_engine/risk/classifier.py. The free text `explanation` is left out.
pub mod Tiers
use buy_or_wait_ai_advisor.Common.{
  Bool, Dict, List, Money, Option, String, [], abs_ℤ, divide_signed, if◌then◌else◌, insert, leb_ℤ,
  lookup_or, ltb_ℤ, map, nat_eq, sort_by, string_eq, take, units, zero_money, ℤ, ◌+ℤ◌, ◌-ℤ◌, ◌||◌,
  ◌∷◌,
}
use buy_or_wait_ai_advisor.Domain.{
  FinancialState, RiskTier, ScheduledItem, high_risk, low_risk, moderate_risk,
}
use buy_or_wait_ai_advisor.Ledger.Daily.{build_ledger}
use buy_or_wait_ai_advisor.Decision.SafeAmount.{compute_safe_amount}
use buy_or_wait_ai_advisor.Risk.Stress.{
  RiskCalibrationConfig, StressFactors, factors_of, thousandths,
}

pub record RiskProfile : Type 0 where
  pub request_id : String
  pub user_id : String
  pub currency : String
  pub requested_amount : Money
  pub minimum_balance_to_keep : Money
  pub p50_min_closing : Money
  pub p90_min_closing : Money
  pub p50_safe_amount : Money
  pub p90_safe_amount : Money
  pub p50_headroom : Money
  pub p90_headroom : Money
  pub breach_under_p50 : Bool
  pub breach_under_p90 : Bool
  pub post_payment_breach_p50 : Bool
  pub post_payment_breach_p90 : Bool
  pub risk_tier : RiskTier
  pub stress_summary : List (String × ℤ)

-- `diff_by_cat`, over the pairs of `zip`; a difference up to `Decimal('0.001')` is passed over.
unfoldable pub stress_by_category :
    List ScheduledItem → List ScheduledItem → Dict String Money → Dict String Money
stress_by_category (item50 ∷ items50) (item90 ∷ items90) found =
    let diff = abs_ℤ item90.amount -ℤ abs_ℤ item50.amount in
    stress_by_category items50 items90 (
      if ltb_ℤ (thousandths 1) diff
      then insert item50.category (lookup_or item50.category zero_money found +ℤ diff) found
      else found)
stress_by_category _ _ found = found

abbrev pub more_stressed : String × Money → String × Money → Bool
more_stressed (_, a) (_, b) = leb_ℤ b a

-- The parts of `c:+pct%`, the percentage in the tenths that `:.1f` prints; `[]` stands for `"none"`.
unfoldable pub stress_summary_of : StressFactors → Dict String Money → List (String × ℤ)
stress_summary_of factors found =
    map
      (λ (category, diff).
        (category, divide_signed (lookup_or category (units 1) factors -ℤ units 1) 100_000))
      (take 3 (sort_by more_stressed found))

abbrev pub tier_of : Money → Money → Money → RiskTier
tier_of requested_amount p50_safe p90_safe =
    if leb_ℤ requested_amount p90_safe
    then low_risk
    else if leb_ℤ requested_amount p50_safe
    then moderate_risk
    else high_risk

unfoldable pub classify_risk :
    FinancialState → FinancialState → Money → String → Option RiskCalibrationConfig → RiskProfile
unfolding stress_by_category stress_summary_of
classify_risk state_p50 state_p90 requested_amount request_id config =
    let p50_min = (build_ledger state_p50 [] []).minimum_closing in
    let p90_min = (build_ledger state_p90 [] []).minimum_closing in
    let min_bal = state_p50.minimum_balance in
    let p50_safe = compute_safe_amount state_p50 requested_amount [] in
    let p90_safe = compute_safe_amount state_p90 requested_amount [] in
    record {
      request_id = request_id;
      user_id = state_p50.user_id;
      currency = state_p50.home_currency;
      requested_amount = requested_amount;
      minimum_balance_to_keep = min_bal;
      p50_min_closing = p50_min;
      p90_min_closing = p90_min;
      p50_safe_amount = p50_safe;
      p90_safe_amount = p90_safe;
      p50_headroom = p50_min -ℤ min_bal;
      p90_headroom = p90_min -ℤ min_bal;
      breach_under_p50 = ltb_ℤ p50_min min_bal;
      breach_under_p90 = ltb_ℤ p90_min min_bal;
      post_payment_breach_p50 = ltb_ℤ (p50_min -ℤ min_bal) requested_amount;
      post_payment_breach_p90 = ltb_ℤ (p90_min -ℤ min_bal) requested_amount;
      risk_tier = tier_of requested_amount p50_safe p90_safe;
      stress_summary =
          stress_summary_of (factors_of config)
            (stress_by_category state_p50.recurring_debits state_p90.recurring_debits []);
    }

pub record RiskAssessmentResult : Type 0 where
  pub risk_tier : RiskTier
  pub safe_amount_p50 : Money
  pub safe_amount_p90 : Money
  pub minimum_balance_p50 : Money
  pub minimum_balance_p90 : Money
  pub headroom_p50 : Money
  pub headroom_p90 : Money
  pub stress_summary : List (String × ℤ)
  pub calibration_version : String
  pub p90_breach_detected : Bool

-- `RiskProfile.to_result`
unfoldable pub to_result : RiskProfile → String → RiskAssessmentResult
to_result profile calibration_version = record {
  risk_tier = profile.risk_tier;
  safe_amount_p50 = profile.p50_safe_amount;
  safe_amount_p90 = profile.p90_safe_amount;
  minimum_balance_p50 = profile.p50_min_closing;
  minimum_balance_p90 = profile.p90_min_closing;
  headroom_p50 = profile.p50_headroom;
  headroom_p90 = profile.p90_headroom;
  stress_summary = profile.stress_summary;
  calibration_version = calibration_version;
  p90_breach_detected = profile.breach_under_p90 || profile.post_payment_breach_p90;
}
