-- ===== src/Risk/Stress/Laws.antt =====
-- The stressed projection against the unstressed one: buyorwait_engine/risk/stress_buffers.py.
use buy_or_wait_ai_advisor.Common.{
  +ℤ_mono, Date, List, Money, Option, [], abs_ℤ, arith, divide_half_even, divide_signed, int_laws,
  lookup, lookup_or, map, nat_eq, negsuc, negsuc-times, pos, refl, some, string_eq, sub_ℕ, suc,
  units, zero, zero_money, ℕ, ◌*◌, ◌+◌, ◌<ℤ◌, ◌∷◌, ◌≡◌, ◌≤ℤ◌, ◌≤◌,
}
use buy_or_wait_ai_advisor.Domain.{FinancialState, PaymentPlan, ScheduledItem}
use buy_or_wait_ai_advisor.Ledger.Daily.{change_for, recurring_debit_amount}
use buy_or_wait_ai_advisor.Ledger.Projection.{
  debits_on, net_on, on_day, over_days, projected_balance,
}
use buy_or_wait_ai_advisor.Risk.Stress.{
  RiskCalibrationConfig, StressFactors, build_stressed_state, factors_of, scale, stress_item,
}
use buy_or_wait_ai_advisor.Ledger.Solvency.{IsSolvent}

-- Rounding does not fall under a whole number of ticks.
le-divide_half_even : (q a : ℕ) → q * 100_000_000 ≤ a → q ≤ divide_half_even a 100_000_000
unfolding divide_half_even
le-divide_half_even q a h = ground arith

zero_divided : divide_half_even 0 100_000_000 ≡ 0
unfolding divide_half_even
zero_divided = refl

abs-sub_ℕ : (q : ℕ) → abs_ℤ (sub_ℕ 0 q) ≡ pos q
unfolding abs_ℤ
abs-sub_ℕ q = ground arith

-- A debit scaled by a factor above one does not shrink.
abs-scale :
    (amount factor : Money)
    → amount <ℤ zero_money
    → units 1 <ℤ factor
    → abs_ℤ amount ≤ℤ abs_ℤ (scale amount factor)
unfolding scale divide_signed
abs-scale (pos n) factor h k = absurd (omega arith)
abs-scale (negsuc n) (negsuc m) h k = absurd (omega arith)
abs-scale (negsuc n) (pos m) h k =
    let (whole, size) = negsuc-times n m in
    let grown : suc n * 100_000_000 ≤ suc n * m = grind arith in
    let big = le-divide_half_even (suc n) (suc n * m) grown in
    rw (whole, size, zero_divided, abs-sub_ℕ (divide_half_even (suc n * m) 100_000_000))
      (omega (int_laws, big))

-- The item of a stressed state: the same date, and a debit that is not smaller.
stress_item-le :
    (factors : StressFactors) (item : ScheduledItem)
    → ((stress_item factors item).date ≡ item.date)
      × (abs_ℤ item.amount ≤ℤ abs_ℤ (stress_item factors item).amount)
unfolding stress_item
stress_item-le factors item =
    let factor = lookup_or item.category (units 1) factors in
    ground (arith, abs-scale item.amount factor)

unchanged_amount :
    (item : ScheduledItem) → recurring_debit_amount [] item ≡ some (abs_ℤ item.amount)
unfolding recurring_debit_amount change_for lookup
unchanged_amount item = ground arith

on_day_mono : (d d' t : Date) (a b : Money) → d' ≡ d → a ≤ℤ b → on_day d t a ≤ℤ on_day d' t b
on_day_mono d d' t a b e h = ground arith

debits_on-stressed :
    (factors : StressFactors) (items : List ScheduledItem) (t : Date)
    → debits_on (recurring_debit_amount []) items t
      ≤ℤ debits_on (recurring_debit_amount []) (map (stress_item factors) items) t
debits_on-stressed factors [] t = omega arith
debits_on-stressed factors (item ∷ items) t =
    let (dated, grows) = stress_item-le factors item in
    rw (unchanged_amount item, unchanged_amount (stress_item factors item))
      (+ℤ_mono _ _ _ _
        (on_day_mono item.date (stress_item factors item).date t (abs_ℤ (abs_ℤ item.amount))
          (abs_ℤ (abs_ℤ (stress_item factors item).amount)) dated (omega (int_laws, grows)))
        (debits_on-stressed factors items t))

over_days-mono :
    (f g : Date → Money)
    → ((t : Date) → f t ≤ℤ g t)
    → (c : Date) (n : ℕ) → over_days f c n ≤ℤ over_days g c n
unfolding over_days
over_days-mono f g h c zero = omega arith
over_days-mono f g h c (suc n) = +ℤ_mono _ _ _ _ (h c) (over_days-mono f g h (c + 1) n)

module _ (state : FinancialState) (config : Option RiskCalibrationConfig) where
  abbrev stressed : FinancialState
  stressed = build_stressed_state state config

  pub net_on-stressed : (t : Date) → net_on stressed [] t ≤ℤ net_on state [] t
  unfolding net_on build_stressed_state
  net_on-stressed t =
      omega (int_laws, debits_on-stressed (factors_of config) state.recurring_debits t)

  -- With no changes of spending, no projected balance is higher under stress.
  pub projected-stressed :
      (plan : PaymentPlan) (i : ℕ)
      → projected_balance stressed [] plan i ≤ℤ projected_balance state [] plan i
  unfolding projected_balance build_stressed_state
  projected-stressed plan i = omega (
    int_laws,
    over_days-mono (net_on stressed []) (net_on state []) net_on-stressed state.request_date
        (suc i),
  )

  -- With no changes of spending on either side, a plan that keeps the stressed balance at a floor or above
  -- keeps the unstressed one there.
  pub IsSolvent-stressed :
      (floor : Money) (plan : PaymentPlan)
      → IsSolvent floor stressed [] plan
      → IsSolvent floor state [] plan
  unfolding build_stressed_state
  IsSolvent-stressed floor plan s = record {
    opening = s.opening;
    days = λ i h. let low = s.days i h in omega (int_laws, projected-stressed plan i);
  }
