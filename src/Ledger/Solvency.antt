-- ===== src/Ledger/Solvency.antt =====
-- `build_ledger` against the projection: its entries, its minimum, and what it means that the minimum
-- is not under a floor.
use buy_or_wait_ai_advisor.Common.{
  Date, Money, arith, get_elem?, int_laws, length, refl, some, suc, zero, ℕ, ◌+ℤ◌, ◌+◌, ◌-◌, ◌↔◌,
  ◌∙◌, ◌≡◌, ◌≤ℤ◌, ◌≤◌,
}
use buy_or_wait_ai_advisor.Domain.{
  FinancialState, PaymentPlan, SpendingChanges, forecast_horizon_days,
}
use buy_or_wait_ai_advisor.Ledger.Daily.{DayEntry, build_ledger, flows_of}
use buy_or_wait_ai_advisor.Ledger.Projection.{net_on, over_days, payments_on, projected_balance}
use buy_or_wait_ai_advisor.Ledger.Maps.{credits-flows, debits-flows}
use buy_or_wait_ai_advisor.Ledger.Minimum.{
  balance_after, day_loop-ge, get_elem?-day_loop, le-day_loop, length-day_loop,
}

-- The projected balance stays at the floor or above: before the first day and at the close of each of
-- the 91 days of the horizon.
pub record IsSolvent (floor : Money) (state : FinancialState) (changes : SpendingChanges)
    (plan : PaymentPlan) : Type 0 where
  pub opening : floor ≤ℤ state.starting_balance
  pub days : (i : ℕ) → i ≤ forecast_horizon_days → floor ≤ℤ projected_balance state changes plan i

-- Two daily sums that differ day by day by two others.
over_days-balance :
    (f g h k : Date → Money)
    → ((t : Date) → f t +ℤ g t ≡ h t +ℤ k t)
    → (c : Date) (n : ℕ) → over_days f c n +ℤ over_days g c n ≡ over_days h c n +ℤ over_days k c n
unfolding over_days
over_days-balance f g h k e c zero = refl
over_days-balance f g h k e c (suc n) = grind (int_laws, e c, over_days-balance f g h k e (c + 1) n)

module _ (state : FinancialState) (changes : SpendingChanges) (plan : PaymentPlan) where
  flows_balance :
      (t : Date)
      → (flows_of state changes plan).credits t +ℤ payments_on plan t
        ≡ net_on state changes t +ℤ (flows_of state changes plan).debits t
  unfolding net_on
  flows_balance t =
      rw (credits-flows state changes plan t, debits-flows state changes plan t) (omega int_laws)

  balance_after-projected :
      (i : ℕ)
      → balance_after
          (flows_of state changes plan)
          state.starting_balance
          state.request_date
          (suc i)
        ≡ projected_balance state changes plan i
  unfolding projected_balance
  balance_after-projected i =
      let flows = flows_of state changes plan in
      grind (
        int_laws,
        over_days-balance flows.credits (payments_on plan) (net_on state changes) flows.debits
            flows_balance state.request_date (suc i),
      )

  -- There is one entry for each day of the horizon, and the entry of day `i` is dated `i` days after
  -- the request and closes at the projected balance of that day.
  pub build_ledger-entries :
      let ledger = build_ledger state changes plan in
      (length ledger.entries ≡ 91)
      × ((i : ℕ)
          → i ≤ forecast_horizon_days
          → (e : DayEntry) × (get_elem? ledger.entries i ≡ some e)
            × (e.dt ≡ state.request_date + i)
            × (e.closing ≡ projected_balance state changes plan i))
  unfolding build_ledger
  build_ledger-entries =
      let flows = flows_of state changes plan in
      let start = state.request_date in
      let rounds = start + forecast_horizon_days + 1 - start in
      let balance = state.starting_balance in
      (
        length-day_loop flows rounds start balance balance start ∙ omega arith,
        λ i h.
            let (e, at, dated, _, closes) =
              get_elem?-day_loop flows rounds start balance balance start i (omega arith) in
            (e, at, dated, closes ∙ balance_after-projected i),
      )

  -- The minimum closing balance is at a floor or above exactly when the projection is.
  pub minimum_closing-IsSolvent :
      (floor : Money)
      → (floor ≤ℤ (build_ledger state changes plan).minimum_closing)
        ↔ IsSolvent floor state changes plan
  unfolding build_ledger
  minimum_closing-IsSolvent floor =
      let flows = flows_of state changes plan in
      let start = state.request_date in
      let rounds = start + forecast_horizon_days + 1 - start in
      let balance = state.starting_balance in
      (
        λ h.
            let (opening, days) = le-day_loop flows floor rounds start balance balance start h in
            record {
              opening = opening;
              days = λ i le. rw (balance_after-projected i) at (days i (omega arith));
            },
        λ solvent.
            day_loop-ge flows floor rounds start balance balance start solvent.opening
              (λ i lt. rw (balance_after-projected i) (solvent.days i (omega arith))),
      )
