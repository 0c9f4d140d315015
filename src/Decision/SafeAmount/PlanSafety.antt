-- ===== src/Decision/SafeAmount/PlanSafety.antt =====
-- What `is_plan_safe` decides, against the projected balances.
use native.Mathlib.Decide.{dec_le}
use mathlib.Core.Option.{some-injective}
use buy_or_wait_ai_advisor.Common.{
  All, All-get_elem?, All-of_get_elem?, Bool, Bool-cases, Date, List, Money, Option, Option-cases,
  [], arith, cent, err, false, false≢true, get_elem?-lt, inl, inr, int_laws, le-min_iff, leb,
  leb→le, le→leb, none, ok, pos, refl, select, some, sym, true, value_error, ℕ, ◌+ℤ◌, ◌+◌, ◌-ℤ◌,
  ◌<◌, ◌↔◌, ◌∙◌, ◌∷◌, ◌≡◌, ◌≤ℤ◌, ◌≤◌,
}
use buy_or_wait_ai_advisor.Ledger.Daily.{DayEntry, build_ledger, lower_of, min_closing_of}
use buy_or_wait_ai_advisor.Domain.{
  FinancialState, PaymentPlan, SpendingChanges, forecast_horizon_days,
}
use buy_or_wait_ai_advisor.Ledger.Projection.{projected_balance}
use buy_or_wait_ai_advisor.Ledger.Solvency.{build_ledger-entries}
use buy_or_wait_ai_advisor.Decision.SafeAmount.{entries_until, is_plan_safe, plan_end}

-- The least closing of the entries that pass a test: a floor under it is a floor under them all, and
-- there is none only where no entry passes.
abbrev IsLeast : (DayEntry → Bool) → List DayEntry → Option Money → Type 0
IsLeast p es none = All (λ e. p e ≡ false) es
IsLeast p es (some least) = (k : Money) → (k ≤ℤ least) ↔ All (λ e. p e ≡ true → k ≤ℤ e.closing) es

IsLeast-skip :
    (p : DayEntry → Bool) (e : DayEntry) (es : List DayEntry) (r : Option Money)
    → p e ≡ false
    → IsLeast p es r
    → IsLeast p (e ∷ es) r
IsLeast-skip p e es none fails h = (fails, h)
IsLeast-skip p e es (some least) fails h =
    λ k. (λ le. (λ t. absurd (false≢true (sym fails ∙ t)), (h k).0 le), λ all. (h k).1 all.1)

-- No passing entry puts no bound on any floor.
All-vacuous :
    (p : DayEntry → Bool) (k : Money) (es : List DayEntry)
    → All (λ e. p e ≡ false) es
    → All (λ e. p e ≡ true → k ≤ℤ e.closing) es
All-vacuous p k [] h = tt
All-vacuous p k (e ∷ es) (fails, h) =
    (λ t. absurd (false≢true (sym fails ∙ t)), All-vacuous p k es h)

IsLeast-take :
    (p : DayEntry → Bool) (e : DayEntry) (es : List DayEntry) (r : Option Money)
    → p e ≡ true
    → IsLeast p es r
    → IsLeast p (e ∷ es) (lower_of e r)
unfolding lower_of
IsLeast-take p e es none passes h =
    λ k. (λ le. (λ t. le, All-vacuous p k es h), λ all. all.0 passes)
IsLeast-take p e es (some least) passes h = λ k.
    let both = le-min_iff k e.closing least in
    (λ le. (λ t. (both.0 le).0, (h k).0 (both.0 le).1), λ all. both.1 (all.0 passes, (h k).1 all.1))

min_closing_of-IsLeast :
    (p : DayEntry → Bool) (es : List DayEntry) → IsLeast p es (min_closing_of (select p es))
unfolding min_closing_of
min_closing_of-IsLeast p [] = tt
min_closing_of-IsLeast p (e ∷ es) = elim (Bool-cases (p e)) [
  | inl passes ↦ rw passes (IsLeast-take p e es _ passes (min_closing_of-IsLeast p es))
  | inr fails ↦ rw fails (IsLeast-skip p e es _ fails (min_closing_of-IsLeast p es))
]

module _ (state : FinancialState) (changes : SpendingChanges) (dt : Date) (amt : Money)
    (rest : PaymentPlan) where
  abbrev plan : PaymentPlan
  plan = (dt, amt) ∷ rest

  abbrev last : Date
  last = plan_end dt rest

  abbrev entries : List DayEntry
  entries = (build_ledger state changes plan).entries

  -- The days of the horizon up to the last payment.
  abbrev pub IsSafePlan : Type 0
  IsSafePlan =
      (i : ℕ)
      → i ≤ forecast_horizon_days
      → state.request_date + i ≤ last
      → state.minimum_balance -ℤ cent ≤ℤ projected_balance state changes plan i

  -- A floor under the entries up to the last payment, by days.
  floor_iff :
      (k : Money)
      → All (λ e. leb e.dt last ≡ true → k ≤ℤ e.closing) entries ↔ (
          (i : ℕ)
          → i ≤ forecast_horizon_days
          → state.request_date + i ≤ last
          → k ≤ℤ projected_balance state changes plan i)
  floor_iff k =
      let (long, each) = build_ledger-entries state changes plan in
      (
        λ all i h before.
            let (e, at, dated, closes) = each i h in
            let low = All-get_elem? (λ e. leb e.dt last ≡ true → k ≤ℤ e.closing) entries i all at in
            rw closes at (low (rw dated (le→leb _ _ before))),
        λ days.
            All-of_get_elem? (λ e. leb e.dt last ≡ true → k ≤ℤ e.closing) entries
              λ i x at early.
                let inside = get_elem?-lt entries i at in
                let (e, at', dated, closes) = each i (omega arith) in
                let same : e ≡ x = some-injective _ _ (sym at' ∙ at) in
                rw (← same, closes)
                  (days i (omega arith) (rw dated at (leb→le _ _ (rw (← same) at early)))),
      )

  abbrev least_closing : Option Money
  least_closing = min_closing_of (entries_until last entries)

  abbrev early : DayEntry → Bool
  early e = leb e.dt last

  none→late : least_closing ≡ none → last < state.request_date
  none→late e =
      let (_, each) = build_ledger-entries state changes plan in
      let (first, at, dated, _) = each 0 (omega arith) in
      let fails = rw e at (min_closing_of-IsLeast early entries) in
      let late : early first ≡ false = All-get_elem? (λ x. early x ≡ false) entries 0 fails at in
      ground arith

  late→floors :
      last < state.request_date → (k : Money) → All (λ e. early e ≡ true → k ≤ℤ e.closing) entries
  late→floors late k = (floor_iff k).1 (λ i h before. absurd (omega arith))

  some→early : (least : Money) → least_closing ≡ some least → state.request_date ≤ last
  some→early least e = elim (dec_le state.request_date last) [
    | yes h ↦ h
    | no h ↦
        let bound : IsLeast early entries (some least) =
          rw e at (min_closing_of-IsLeast early entries) in
        let above = (bound (least +ℤ pos 1)).1 (late→floors (omega arith) (least +ℤ pos 1)) in
        absurd (omega int_laws)
  ]

  some_iff :
      (least k : Money)
      → least_closing ≡ some least
      → (k ≤ℤ least) ↔ (
          (i : ℕ)
          → i ≤ forecast_horizon_days
          → state.request_date + i ≤ last
          → k ≤ℤ projected_balance state changes plan i)
  some_iff least k e =
      let bound : IsLeast early entries (some least) =
        rw e at (min_closing_of-IsLeast early entries) in
      (λ h. (floor_iff k).0 ((bound k).0 h), λ days. (bound k).1 ((floor_iff k).1 days))

  -- A plan is reported safe exactly when its last payment is not before the request date and the
  -- projected balance stays within one cent of the minimum through the last payment's day; the days after
  -- it do not count.
  pub is_plan_safe_iff :
      (is_plan_safe state plan changes ≡ ok true) ↔ ((state.request_date ≤ last) × IsSafePlan)
  unfolding is_plan_safe
  is_plan_safe_iff = elim (Option-cases least_closing) [
    | inl e ↦ rw (e, is_plan_safe) (λ h. cc, λ h. let late = none→late e in absurd (omega arith))
    | inr (least, e) ↦
        let floor = some_iff least (state.minimum_balance -ℤ cent) e in
        rw (e, is_plan_safe)
          (
            λ h. (some→early least e, floor.0 (ground arith)),
            λ h. let up = floor.1 h.1 in ground arith,
          )
  ]

  -- The check raises exactly on a plan that ends before the request date.
  pub is_plan_safe_raises :
      (is_plan_safe state plan changes ≡ err value_error) ↔ (last < state.request_date)
  unfolding is_plan_safe
  is_plan_safe_raises = elim (Option-cases least_closing) [
    | inl e ↦ rw (e, is_plan_safe) (λ h. none→late e, λ h. refl)
    | inr (least, e) ↦
        rw (e, is_plan_safe) (λ h. cc, λ h. let early = some→early least e in absurd (omega arith))
  ]
