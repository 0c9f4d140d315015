-- ===== src/Engine/Safety.antt =====
-- The verdicts `BUY` and `WAIT` against the projected balances.
use mathlib.Core.Path.{subst}
use buy_or_wait_ai_advisor.Common.{
  Bool-cases, Date, IsIn, List, Option, [], arith, inl, inr, leb→le, ok, refl, some, sym, true,
  zero_money, ℤ, ◌+◌, ◌<ℤ◌, ◌<◌, ◌∙◌, ◌∷◌, ◌≡◌, ◌≤ℤ◌, ◌≤◌,
}
use buy_or_wait_ai_advisor.Domain.{
  FinancialState, PaymentMethod, PurchaseProposal, SpendingChanges, Verdict, buy,
  forecast_horizon_days, full_payment, installments, partial_payment,
}
use buy_or_wait_ai_advisor.Ledger.Solvency.{IsSolvent}
use buy_or_wait_ai_advisor.Decision.Spending.{
  ChangeText, cents_of, enumerate_spending_change_combos, format_spending_changes,
}
use buy_or_wait_ai_advisor.Decision.Candidates.{Candidate, CandidateInput, with_earliest}
use buy_or_wait_ai_advisor.Decision.Ranker.{
  Decision, derive_affordability, is_empty, or_else, shown_changes,
}
use buy_or_wait_ai_advisor.Decision.Ranker.Outcome.{
  format_payment_plan-one, format_spending_changes-empty, reported_earliest,
}
use buy_or_wait_ai_advisor.Engine.{decide, derive_verdict, first_date_of, input_of}
use buy_or_wait_ai_advisor.Engine.Verdicts.{IsDecisionOn, decide-IsPlanned}
use buy_or_wait_ai_advisor.Decision.SafeAmount.{compute_safe_amount}
use buy_or_wait_ai_advisor.Decision.SafeAmount.Headroom.{compute_safe_amount-IsSolvent}
use buy_or_wait_ai_advisor.Decision.Candidates.Plans.{IsJustified, MethodFacts}
use buy_or_wait_ai_advisor.Decision.EarliestDate.{find_earliest_full_payment_date}
use buy_or_wait_ai_advisor.Decision.EarliestDate.Laws.{find_earliest-some}

empty→eq : (changes : SpendingChanges) → is_empty changes ≡ true → changes ≡ []
empty→eq [] h = refl
empty→eq (change ∷ changes) h = cc

derive-buy :
    (m : PaymentMethod) (changes : SpendingChanges) (request_date : Date) (first : Option Date)
    → derive_verdict m (shown_changes m changes) request_date first ≡ buy
    → (m ≡ full_payment) × (changes ≡ [])
unfolding derive_verdict
derive-buy full_payment changes request_date first h =
    let unchanged : is_empty (format_spending_changes changes) ≡ true = ground arith in
    (refl, empty→eq changes (rw (format_spending_changes-empty changes) at unchanged))
derive-buy partial_payment changes request_date first h = cc
derive-buy installments changes request_date first h = cc
derive-buy PaymentMethod.wait changes request_date first h = cc
derive-buy PaymentMethod.not_recommended changes request_date first h = cc

derive-wait :
    (m : PaymentMethod) (texts : List ChangeText) (request_date : Date) (first : Option Date)
    → derive_verdict m texts request_date first ≡ Verdict.wait
    → m ≡ PaymentMethod.wait
unfolding derive_verdict
derive-wait m texts request_date first h = ground arith

-- The verdict that goes with a decision.
abbrev pub verdict_of : PurchaseProposal → Decision → Verdict
verdict_of purchase d =
    derive_verdict d.recommended_payment_method d.spending_changes_needed purchase.request_date
      (first_date_of d)

-- The verdict in terms of the candidate that the decision is about.
verdict-IsDecisionOn :
    (state : FinancialState) (purchase : PurchaseProposal) (d : Decision) (c : Candidate)
    → IsDecisionOn state purchase d c
    → verdict_of purchase d
      ≡ derive_verdict c.method
          (shown_changes c.method c.spending_changes)
          purchase.request_date
          c.first_payment_date
verdict-IsDecisionOn state purchase d c (best, method, _, _, texts, _) = rw (best, method, texts)

module _ (state : FinancialState) (purchase : PurchaseProposal) where
  -- The whole amount paid on day `d` under some changes, and the balance at the minimum or above
  -- through the whole horizon.
  abbrev pub PaysSafely : SpendingChanges → Date → Type 0
  PaysSafely changes d =
      IsSolvent state.minimum_balance state changes ((d, purchase.requested_amount) ∷ [])

  -- The facts about a candidate, at the method that it is known to have.
  facts_at :
      (input : CandidateInput) (c : Candidate) {m : PaymentMethod}
      → c.method ≡ m
      → IsJustified input c
      → MethodFacts input m c
  facts_at input c e (_, facts) = subst (λ m. MethodFacts input m c) e facts

  pub decide_buy :
      {d : Decision}
      → decide state purchase ≡ ok d
      → verdict_of purchase d ≡ buy
      → zero_money <ℤ purchase.requested_amount
      → PaysSafely [] state.request_date
  unfolding with_earliest
  decide_buy {d} e h positive =
      let (c, about, origin) = decide-IsPlanned state purchase e in
      let (full, unchanged) =
        derive-buy c.method c.spending_changes _ _
          (sym (verdict-IsDecisionOn state purchase d c about) ∙ h) in
      elim origin [
        | inl fallback ↦ let clash = sym full ∙ fallback in cc
        | inr (feasible, (changes, _, fits)) ↦
            let input = with_earliest (input_of state purchase changes) in
            let within = (facts_at input c full fits).4 feasible in
            let none_made : changes ≡ [] = sym fits.0 ∙ unchanged in
            compute_safe_amount-IsSolvent state [] purchase.requested_amount
              purchase.requested_amount positive
              (subst
                (λ z.
                  purchase.requested_amount
                  ≤ℤ compute_safe_amount state purchase.requested_amount z)
                none_made within)
      ]

  earliest_of :
      (changes : SpendingChanges)
      → (with_earliest (input_of state purchase changes)).earliest_full_date
        ≡ find_earliest_full_payment_date state purchase.requested_amount changes
  unfolding with_earliest
  earliest_of changes = ground arith

  -- What is said of a `WAIT`, in terms of what is reported: the method, the payments, the changes of
  -- spending and the earliest date. There is one payment, of the whole amount, on a day after the request
  -- and by the completion date, within the horizon, and it is safe under changes that were enumerated,
  -- of which none are shown. The earliest date is the one without changes or, where there is none, the
  -- day of the payment.
  abbrev pub WaitsSafely : PaymentMethod → List (Date × ℤ) → List ChangeText → Option Date → Type 0
  WaitsSafely method plan texts earliest =
      (method ≡ PaymentMethod.wait)
      × (texts ≡ [])
      × ((day : Date) × (plan ≡ (day, cents_of purchase.requested_amount) ∷ [])
          × (earliest
              ≡ or_else (find_earliest_full_payment_date state purchase.requested_amount [])
                  (some day))
          × (purchase.request_date < day)
          × (day ≤ purchase.desired_completion_date)
          × (day ≤ state.request_date + forecast_horizon_days)
          × ((changes : SpendingChanges) × IsIn changes (enumerate_spending_change_combos state 3)
              × PaysSafely changes day))

  -- A wait is never now, so that the date without changes is reported, or else the one with them.
  reported-wait :
      (c : Candidate) {day : Date}
      → c.method ≡ PaymentMethod.wait
      → find_earliest_full_payment_date state purchase.requested_amount c.spending_changes
        ≡ some day
      → reported_earliest state purchase.requested_amount purchase.request_date
          (find_earliest_full_payment_date state purchase.requested_amount [])
          c
        ≡ or_else (find_earliest_full_payment_date state purchase.requested_amount []) (some day)
  unfolding derive_affordability
  reported-wait c waits found = elim (Bool-cases (is_empty c.spending_changes)) [
    | inl unchanged ↦
        let now = rw (empty→eq c.spending_changes unchanged) at found in
        rw (waits, unchanged, now) refl
    | inr changed ↦ rw (waits, changed, found) refl
  ]

  pub decide_wait :
      {d : Decision}
      → decide state purchase ≡ ok d
      → verdict_of purchase d ≡ Verdict.wait
      → WaitsSafely d.recommended_payment_method d.payment_plan d.spending_changes_needed
          d.earliest_date_for_full_payment
  unfolding with_earliest
  decide_wait {d} e h =
      let (c, about, origin) = decide-IsPlanned state purchase e in
      let waits =
        derive-wait c.method _ _ _ (sym (verdict-IsDecisionOn state purchase d c about) ∙ h) in
      elim origin [
        | inl fallback ↦ let clash = sym waits ∙ fallback in cc
        | inr (feasible, (changes, found, fits)) ↦
            let input = with_earliest (input_of state purchase changes) in
            let (_, _, (day, earliest, later, on_time, planned, _), _) =
              facts_at input c waits fits in
            let (_, method, _, plan, texts, reported) = about in
            let made : c.spending_changes ≡ changes = fits.0 in
            let found_day : find_earliest_full_payment_date state purchase.requested_amount changes
                ≡ some day =
              sym (earliest_of changes) ∙ earliest in
            let (_, within, safe, _) =
              find_earliest-some state purchase.requested_amount changes day found_day in
            (
              method ∙ waits,
              texts ∙ rw waits refl,
              (
                day,
                plan ∙ format_payment_plan-one c planned,
                reported ∙ reported-wait c waits (rw made found_day),
                later,
                leb→le _ _ on_time,
                within,
                (changes, found, safe),
              ),
            )
      ]
