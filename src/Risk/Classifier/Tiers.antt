-- ===== src/Risk/Classifier/Tiers.antt =====
-- What the risk tiers mean for the projected balances.
use buy_or_wait_ai_advisor.Common.{
  Bool-cases, Money, Option, String, [], arith, inl, inr, int_laws, leb_ℤ, leb_ℤ→gt, leb_ℤ→le,
  max_ℤ, min_ℤ, zero_money, ◌<ℤ◌, ◌↔◌, ◌∷◌, ◌≤ℤ◌,
}
use buy_or_wait_ai_advisor.Domain.{FinancialState, RiskTier, high_risk, low_risk, moderate_risk}
use buy_or_wait_ai_advisor.Ledger.Daily.{build_ledger}
use buy_or_wait_ai_advisor.Ledger.Solvency.{IsSolvent, minimum_closing-IsSolvent}
use buy_or_wait_ai_advisor.Decision.SafeAmount.{compute_safe_amount, headroom}
use buy_or_wait_ai_advisor.Risk.Stress.{RiskCalibrationConfig, build_stressed_state}
use buy_or_wait_ai_advisor.Risk.Stress.Laws.{IsSolvent-stressed, net_on-stressed}
use buy_or_wait_ai_advisor.Risk.Classifier.{classify_risk, tier_of}
use buy_or_wait_ai_advisor.Ledger.Projection.{net_on}
use buy_or_wait_ai_advisor.Decision.SafeAmount.Headroom.{compute_safe_amount_largest}

min-mono : (r a b : Money) → a ≤ℤ b → min_ℤ r a ≤ℤ min_ℤ r b
unfolding min_ℤ
min-mono r a b h = ground arith

max-mono : (r a b : Money) → a ≤ℤ b → max_ℤ r a ≤ℤ max_ℤ r b
unfolding max_ℤ
max-mono r a b h = ground arith

module _ (state : FinancialState) (config : Option RiskCalibrationConfig) where
  abbrev stressed : FinancialState
  stressed = build_stressed_state state config

  minimum_closing-stressed :
      (build_ledger stressed [] []).minimum_closing ≤ℤ (build_ledger state [] []).minimum_closing
  minimum_closing-stressed =
      let floor = (build_ledger stressed [] []).minimum_closing in
      (minimum_closing-IsSolvent state [] [] floor).1 (
        IsSolvent-stressed state config floor []
          ((minimum_closing-IsSolvent stressed [] [] floor).0 (omega arith)))

  headroom-stressed : headroom stressed [] ≤ℤ headroom state []
  unfolding headroom build_stressed_state
  headroom-stressed = omega (int_laws, minimum_closing-stressed)

  compute_safe_amount-stressed :
      (requested_amount : Money)
      → compute_safe_amount stressed requested_amount []
        ≤ℤ compute_safe_amount state requested_amount []
  unfolding compute_safe_amount
  compute_safe_amount-stressed requested_amount =
      max-mono _ _ _ (min-mono requested_amount _ _ headroom-stressed)

  -- The whole amount paid on the request date, in a state as it is or stressed.
  abbrev pub PaysToday : FinancialState → Money → Type 0
  PaysToday s amt = IsSolvent s.minimum_balance s [] ((s.request_date, amt) ∷ [])

  -- What each tier says of paying the whole amount on the request date.
  abbrev pub TierMeaning : RiskTier → Money → Type 0
  TierMeaning low_risk amt = PaysToday stressed amt × PaysToday state amt
  TierMeaning moderate_risk amt = (¬ PaysToday stressed amt) × PaysToday state amt
  TierMeaning high_risk amt = (¬ PaysToday stressed amt) × (¬ PaysToday state amt)

  tier_meaning :
      (amt p50 p90 : Money)
      → (amt ≤ℤ p90) ↔ PaysToday stressed amt
      → (amt ≤ℤ p50) ↔ PaysToday state amt
      → p90 ≤ℤ p50
      → TierMeaning (tier_of amt p50 p90) amt
  tier_meaning amt p50 p90 under_stress expected below = elim (Bool-cases (leb_ℤ amt p90)) [
    | inl low ↦
        let fits = leb_ℤ→le amt p90 low in rw low (under_stress.0 fits, expected.0 (omega arith))
    | inr above ↦
        let breaks : ¬ PaysToday stressed amt = λ s. leb_ℤ→gt amt p90 above (under_stress.1 s) in
        elim (Bool-cases (leb_ℤ amt p50)) [
          | inl fits ↦ rw (above, fits) (breaks, expected.0 (leb_ℤ→le amt p50 fits))
          | inr short ↦ rw (above, short) (breaks, λ s. leb_ℤ→gt amt p50 short (expected.1 s))
        ]
  ]

  -- For a positive amount and no net inflow on the request date, the tier says exactly whether paying
  -- the amount on the request date is solvent: low risk under stress and without, moderate risk only
  -- without, high risk in neither.
  pub classify_risk-TierMeaning :
      (requested_amount : Money) (request_id : String)
      → zero_money <ℤ requested_amount
      → net_on state [] state.request_date ≤ℤ zero_money
      → TierMeaning
          (classify_risk state stressed requested_amount request_id config).risk_tier
          requested_amount
  unfolding classify_risk build_stressed_state
  classify_risk-TierMeaning requested_amount request_id positive quiet =
      tier_meaning requested_amount _ _
        (compute_safe_amount_largest stressed [] requested_amount requested_amount
          (omega (arith, quiet, net_on-stressed state config state.request_date)) positive
          (omega arith))
        (compute_safe_amount_largest state [] requested_amount requested_amount quiet positive
          (omega arith))
        (compute_safe_amount-stressed requested_amount)

  -- Stress raises neither the safe amount nor the minimum closing balance of a risk profile.
  pub classify_risk-stressed :
      (requested_amount : Money) (request_id : String)
      → let profile = classify_risk state stressed requested_amount request_id config in
        (profile.p90_safe_amount ≤ℤ profile.p50_safe_amount)
        × (profile.p90_min_closing ≤ℤ profile.p50_min_closing)
        × (profile.p90_headroom ≤ℤ profile.p50_headroom)
  unfolding classify_risk
  classify_risk-stressed requested_amount request_id = (
    compute_safe_amount-stressed requested_amount,
    minimum_closing-stressed,
    omega (int_laws, minimum_closing-stressed),
  )
