-- ===== src/Decision/SafeAmount/Headroom.antt =====
-- What `compute_safe_amount` promises, against the projected balances.
use buy_or_wait_ai_advisor.Common.{
  Money, [], arith, int_laws, max-cases, min-cases, min_ℤ, zero_money, ℕ, ◌+ℤ◌, ◌-ℤ◌, ◌<ℤ◌, ◌↔◌,
  ◌∷◌, ◌≡◌, ◌≤ℤ◌, ◌≤◌,
}
use buy_or_wait_ai_advisor.Domain.{FinancialState, SpendingChanges, forecast_horizon_days}
use buy_or_wait_ai_advisor.Ledger.Projection.{net_on, over_days, projected_balance}
use buy_or_wait_ai_advisor.Ledger.Solvency.{IsSolvent, minimum_closing-IsSolvent}
use buy_or_wait_ai_advisor.Decision.SafeAmount.{compute_safe_amount, headroom}
use buy_or_wait_ai_advisor.Decision.SafeAmount.Single.{baseline, projected_single}

module _ (state : FinancialState) (changes : SpendingChanges) where
  -- The baseline minimum in the terms of the projection.
  headroom_iff :
      (amt : Money)
      → (amt ≤ℤ headroom state changes) ↔ IsSolvent (state.minimum_balance +ℤ amt) state changes []
  unfolding headroom
  headroom_iff amt =
      let least = minimum_closing-IsSolvent state changes [] (state.minimum_balance +ℤ amt) in
      (λ h. least.0 (omega int_laws), λ s. let up = least.1 s in omega int_laws)

  -- One payment on the request date lowers every projected balance by its amount.
  projected_today :
      (amt : Money)
      → zero_money <ℤ amt
      → (i : ℕ)
      → projected_balance state changes ((state.request_date, amt) ∷ []) i
        ≡ baseline state changes i -ℤ amt
  projected_today amt positive i =
      rw (projected_single state changes state.request_date amt i) (grind int_laws)

  IsSolvent-today :
      (amt : Money)
      → zero_money <ℤ amt
      → IsSolvent (state.minimum_balance +ℤ amt) state changes []
      → IsSolvent state.minimum_balance state changes ((state.request_date, amt) ∷ [])
  IsSolvent-today amt positive s = record {
    opening = let up = s.opening in omega int_laws;
    days = λ i h. rw (projected_today amt positive i) (let up = s.days i h in omega int_laws);
  }

  -- The safe amount lies between zero and the requested amount.
  pub compute_safe_amount_bounds :
      (requested_amount : Money)
      → zero_money ≤ℤ requested_amount
      → let safe = compute_safe_amount state requested_amount changes in
        (zero_money ≤ℤ safe) × (safe ≤ℤ requested_amount)
  unfolding compute_safe_amount
  compute_safe_amount_bounds requested_amount h = grind (
    int_laws,
    min-cases requested_amount (headroom state changes),
    max-cases zero_money (min_ℤ requested_amount (headroom state changes)),
  )

  -- Any positive part of the safe amount can be paid on the request date, and the balance stays at
  -- the minimum or above through the whole horizon.
  pub compute_safe_amount-IsSolvent :
      (requested_amount amt : Money)
      → zero_money <ℤ amt
      → amt ≤ℤ compute_safe_amount state requested_amount changes
      → IsSolvent state.minimum_balance state changes ((state.request_date, amt) ∷ [])
  unfolding compute_safe_amount
  compute_safe_amount-IsSolvent requested_amount amt positive h = IsSolvent-today amt positive (
      (headroom_iff amt).0 (
        grind (
          int_laws,
          min-cases requested_amount (headroom state changes),
          max-cases zero_money (min_ℤ requested_amount (headroom state changes)),
        )))

  -- No net inflow on the request date: the opening balance is not under the first day's.
  baseline-le-opening :
      net_on state changes state.request_date ≤ℤ zero_money
      → baseline state changes 0 ≤ℤ state.starting_balance
  unfolding projected_balance over_days
  baseline-le-opening quiet = omega int_laws

  raised :
      (amt : Money)
      → net_on state changes state.request_date ≤ℤ zero_money
      → zero_money <ℤ amt
      → IsSolvent state.minimum_balance state changes ((state.request_date, amt) ∷ [])
      → IsSolvent (state.minimum_balance +ℤ amt) state changes []
  raised amt quiet positive s =
      let days : (i : ℕ)
          → i ≤ forecast_horizon_days
          → state.minimum_balance +ℤ amt ≤ℤ baseline state changes i =
        λ i h.
          let low : state.minimum_balance ≤ℤ baseline state changes i -ℤ amt =
            rw (projected_today amt positive i) at (s.days i h) in
          omega int_laws in
      record {
        opening =
            let low = days 0 (omega arith) in let up = baseline-le-opening quiet in omega int_laws;
        days = days;
      }

  -- With no net inflow on the request date the safe amount is the largest: a positive amount within
  -- the request is solvent exactly when it is within the safe amount.
  pub compute_safe_amount_largest :
      (requested_amount amt : Money)
      → net_on state changes state.request_date ≤ℤ zero_money
      → zero_money <ℤ amt
      → amt ≤ℤ requested_amount
      → (amt ≤ℤ compute_safe_amount state requested_amount changes)
        ↔ IsSolvent state.minimum_balance state changes ((state.request_date, amt) ∷ [])
  unfolding compute_safe_amount
  compute_safe_amount_largest requested_amount amt quiet positive within = (
    compute_safe_amount-IsSolvent requested_amount amt positive,
    λ s.
        let fits = (headroom_iff amt).1 (raised amt quiet positive s) in
        grind (
          int_laws,
          min-cases requested_amount (headroom state changes),
          max-cases zero_money (min_ℤ requested_amount (headroom state changes)),
        ),
  )

  -- An inflow on the request date is not counted: at an opening balance of exactly the minimum the
  -- safe amount is zero, also where the day's own credits make an amount solvent.
  pub compute_safe_amount_ignores_inflow :
      (requested_amount amt : Money)
      → state.starting_balance ≡ state.minimum_balance
      → zero_money ≤ℤ requested_amount
      → zero_money <ℤ amt
      → ((i : ℕ)
          → i ≤ forecast_horizon_days
          → state.minimum_balance +ℤ amt ≤ℤ baseline state changes i)
      → (compute_safe_amount state requested_amount changes ≡ zero_money)
        × IsSolvent state.minimum_balance state changes ((state.request_date, amt) ∷ [])
  unfolding compute_safe_amount
  compute_safe_amount_ignores_inflow requested_amount amt level nonneg positive days =
      let room = headroom state changes in
      let low = ((headroom_iff room).0 (omega arith)).opening in
      (
        grind (
          int_laws,
          min-cases requested_amount room,
          max-cases zero_money (min_ℤ requested_amount room),
        ),
        record {
          opening = rw level (omega arith);
          days = λ i h. rw (projected_today amt positive i) (let up = days i h in omega int_laws);
        },
      )
