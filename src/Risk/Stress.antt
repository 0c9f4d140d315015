-- ===== src/Risk/Stress.antt =====
-- buyorwait_engine/risk/{config,stress_buffers}.py.
use Prim.Native.String.{◌++◌ as text_append}
pub mod Laws
use buy_or_wait_ai_advisor.Common.{
  Dict, Money, Option, String, [], divide_signed, if◌then◌else◌, lookup_or, ltb_ℤ, map, nat_eq,
  none, pos, some, string_eq, ticks_per_unit, units, zero_money, ℕ, ◌&&◌, ◌*ℤ◌, ◌*◌, ◌∷◌,
}
use buy_or_wait_ai_advisor.Domain.{FinancialState, ScheduledItem}

abbrev pub StressFactors : Type 0
StressFactors = Dict String Money

pub record RiskCalibrationConfig : Type 0 where
  pub version : String
  pub stress_factors : StressFactors

abbrev pub current_calibration_version : String
current_calibration_version = "v3_empirical_q90_20260914"

-- A factor given in thousandths.
abbrev pub thousandths : ℕ → Money
thousandths n = pos (n * 100_000)

unfoldable pub default_p90_stress_factors : StressFactors
default_p90_stress_factors =
    ("groceries", thousandths 1240)
    ∷ ("transport", thousandths 1242)
    ∷ ("dining", thousandths 1239)
    ∷ ("utilities", thousandths 1125)
    ∷ ("shopping", thousandths 1126)
    ∷ ("entertainment", thousandths 1122)
    ∷ ("healthcare", thousandths 1107)
    ∷ ("personal_care", thousandths 1150)
    ∷ ("clothing", thousandths 1150)
    ∷ ("miscellaneous", thousandths 1200)
    ∷ ("rent", thousandths 1000)
    ∷ ("debt_repayment", thousandths 1000)
    ∷ ("insurance", thousandths 1000)
    ∷ ("housing", thousandths 1000)
    ∷ ("streaming", thousandths 1000)
    ∷ ("music_subscription", thousandths 1000)
    ∷ ("cloud_storage", thousandths 1000)
    ∷ ("delivery_membership", thousandths 1000)
    ∷ ("education", thousandths 1000)
    ∷ ("family_support", thousandths 1000)
    ∷ ("gym", thousandths 1000)
    ∷ []

-- `config.stress_factors if config else DEFAULT_P90_STRESS_FACTORS`
abbrev pub factors_of : Option RiskCalibrationConfig → StressFactors
factors_of none = default_p90_stress_factors
factors_of (some config) = config.stress_factors

-- `amount * factor`, rounded to a tick; exact for an amount of at most five decimal places and a
-- factor of at most three.
unfoldable pub scale : Money → Money → Money
scale amount factor = divide_signed (amount *ℤ factor) ticks_per_unit

-- One round of the loop.
unfoldable pub stress_item : StressFactors → ScheduledItem → ScheduledItem
unfolding scale
stress_item factors item =
    let factor = lookup_or item.category (units 1) factors in
    if ltb_ℤ (units 1) factor && ltb_ℤ item.amount zero_money
    then record item {
      amount = scale item.amount factor;
      description = text_append item.description " [P90 stress]";
    }
    else item

unfoldable pub build_stressed_state : FinancialState → Option RiskCalibrationConfig → FinancialState
unfolding stress_item
build_stressed_state state config = record state {
  recurring_debits = map (stress_item (factors_of config)) state.recurring_debits;
}
