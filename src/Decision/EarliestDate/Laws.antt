-- ===== src/Decision/EarliestDate/Laws.antt =====
-- What the scan for the earliest full payment date returns.
use native.Mathlib.Decide.{dec_lt}
use native.Mathlib.Nat.{add-zero}
use buy_or_wait_ai_advisor.Common.{
  Bool, Bool-cases, Date, Money, Option, Option-cases, [], arith, false, false≢true, inl, inr, none,
  some, suc, sym, true, zero, ℕ, ◌+◌, ◌-◌, ◌<◌, ◌↔◌, ◌∙◌, ◌∷◌, ◌≡◌, ◌≤◌,
}
use buy_or_wait_ai_advisor.Decision.EarliestDate.{
  find_earliest_full_payment_date, first_day, pays_safely_on,
}
use buy_or_wait_ai_advisor.Domain.{
  FinancialState, PaymentPlan, SpendingChanges, forecast_horizon_days,
}
use buy_or_wait_ai_advisor.Ledger.Solvency.{IsSolvent, minimum_closing-IsSolvent}

-- The scan returns the first day that passes the test, or finds that none does.
abbrev pub IsFirstDay : (Date → Bool) → ℕ → Date → Option Date → Type 0
IsFirstDay test n c none = (i : ℕ) → i < n → test (c + i) ≡ false
IsFirstDay test n c (some d) =
    (c ≤ d) × (d < c + n) × (test d ≡ true) × ((t : Date) → c ≤ t → t < d → test t ≡ false)

IsFirstDay-step :
    (test : Date → Bool) (n : ℕ) (c : Date) (found : Option Date)
    → test c ≡ false
    → IsFirstDay test n (c + 1) found
    → IsFirstDay test (suc n) c found
IsFirstDay-step test n c none fails later = go
  where
    go : (i : ℕ) → i < suc n → test (c + i) ≡ false
    go zero h = rw add-zero fails
    go (suc i) h =
        let shift : c + suc i ≡ c + 1 + i = omega arith in rw shift (later i (omega arith))
IsFirstDay-step test n c (some d) fails (low, high, passes, before) = (
  omega arith,
  omega arith,
  passes,
  λ t h k. elim (dec_lt c t) [
    | yes above ↦ before t (omega arith) k
    | no here ↦ let same : t ≡ c = omega arith in rw same fails
  ],
)

first_day-IsFirstDay :
    (test : Date → Bool) (n : ℕ) (c : Date) → IsFirstDay test n c (first_day test n c)
unfolding first_day
first_day-IsFirstDay test zero c = λ i h. absurd (omega arith)
first_day-IsFirstDay test (suc n) c = elim (Bool-cases (test c)) [
  | inl passes ↦ rw passes (omega arith, omega arith, passes, λ t h k. absurd (omega arith))
  | inr fails ↦ rw fails (
      IsFirstDay-step test n c (first_day test n (c + 1)) fails
        (first_day-IsFirstDay test n (c + 1)))
]

module _ (state : FinancialState) (requested_amount : Money) (changes : SpendingChanges) where
  -- The whole amount paid on one day, and the balance at the minimum or above all along.
  abbrev pub IsSafeOn : Date → Type 0
  IsSafeOn d = IsSolvent state.minimum_balance state changes ((d, requested_amount) ∷ [])

  pub pays_safely_on_iff :
      (d : Date) → (pays_safely_on state requested_amount changes d ≡ true) ↔ IsSafeOn d
  unfolding pays_safely_on
  pays_safely_on_iff d =
      let plan : PaymentPlan = (d, requested_amount) ∷ [] in
      let least = minimum_closing-IsSolvent state changes plan state.minimum_balance in
      (λ h. least.0 (ground arith), λ s. let up = least.1 s in ground arith)

  -- The date that is returned lies in the window of 91 days, paying the whole amount then is
  -- solvent, and on every earlier day of the window it is not.
  pub find_earliest-some :
      (d : Date)
      → find_earliest_full_payment_date state requested_amount changes ≡ some d
      → (state.request_date ≤ d)
        × (d ≤ state.request_date + forecast_horizon_days)
        × IsSafeOn d
        × ((t : Date) → state.request_date ≤ t → t < d → ¬ IsSafeOn t)
  unfolding find_earliest_full_payment_date
  find_earliest-some d e =
      let test = pays_safely_on state requested_amount changes in
      let (low, high, passes, before) : IsFirstDay test 91 state.request_date (some d) =
        rw e at (first_day-IsFirstDay test 91 state.request_date) in
      (
        low,
        omega arith,
        (pays_safely_on_iff d).0 passes,
        λ t h k s. false≢true (sym (before t h k) ∙ (pays_safely_on_iff t).1 s),
      )

  -- No date is returned exactly when no day of the window is safe.
  pub find_earliest-none :
      (find_earliest_full_payment_date state requested_amount changes ≡ none) ↔ (
        (t : Date)
        → state.request_date ≤ t
        → t ≤ state.request_date + forecast_horizon_days
        → ¬ IsSafeOn t)
  unfolding find_earliest_full_payment_date
  find_earliest-none =
      let test = pays_safely_on state requested_amount changes in
      let start = state.request_date in
      (
        λ e t low high s.
            let none_passes : IsFirstDay test 91 start none =
              rw e at (first_day-IsFirstDay test 91 start) in
            let here : start + (t - start) ≡ t = omega arith in
            let fails : test t ≡ false = rw here at (none_passes (t - start) (omega arith)) in
            false≢true (sym fails ∙ (pays_safely_on_iff t).1 s),
        λ unsafe. elim (Option-cases (first_day test 91 start)) [
          | inl e ↦ e
          | inr (d, e) ↦
              let (low, high, passes, _) : IsFirstDay test 91 start (some d) =
                rw e at (first_day-IsFirstDay test 91 start) in
              absurd (unsafe d low (omega arith) ((pays_safely_on_iff d).0 passes))
        ],
      )
