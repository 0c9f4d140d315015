-- ===== src/Decision/Candidates/Plans.antt =====
-- The candidate plans against the input that they were generated from:
-- buyorwait_engine/decision/candidates.py.
use buy_or_wait_ai_advisor.Common.{
  All, All-append, All-of_AllOk, AllOk, AllOk-bind, AllOk-flat_map_result, Bool-cases, Date, IsIn,
  List, Option, Option-cases, [], ap, arith, false, inl, inr, nat_eq, none, ok, pair_eq, refl, some,
  string_eq, true, zero_money, ℤ, ◌<ℤ◌, ◌<◌, ◌==◌, ◌||◌, ◌∙◌, ◌∷◌, ◌≡◌, ◌≤ℤ◌, ◌⊎◌,
}
use buy_or_wait_ai_advisor.Domain.{
  PaymentMethod, PaymentOptionInput, full_payment, installments, partial_payment,
}
use buy_or_wait_ai_advisor.Decision.SafeAmount.{is_plan_safe}
use buy_or_wait_ai_advisor.Decision.Candidates.{
  Candidate, CandidateInput, accepts, by_deadline, candidate_parts, days_between,
  fallback_candidate, first_or, full_payment_candidates, generate_candidates, installment_candidate,
  installment_candidates, max_installment_days, option_final_date, option_plan,
  partial_payment_candidates, partial_plan, too_long, wait_candidates, with_earliest,
}
use buy_or_wait_ai_advisor.Decision.Candidates.Totals.{plan_total, plan_total-option_plan, times}

-- The days from the first payment to the last are at most the maximum, where there is one.
abbrev pub IsShort : Option ℤ → Date → Date → Type 0
IsShort none first final_date = Unit
IsShort (some most) first final_date = days_between first final_date ≤ℤ most

IsShort-too_long :
    (most : Option ℤ) (first final_date : Date)
    → too_long most first final_date ≡ false
    → IsShort most first final_date
IsShort-too_long none first final_date h = tt
IsShort-too_long (some most) first final_date h = ground arith

module _ (input : CandidateInput) where
  -- A feasible plan has passed the safety check.
  abbrev pub IsChecked : Candidate → Type 0
  IsChecked c =
      c.is_feasible ≡ true
      → is_plan_safe input.state c.payment_plan input.spending_changes ≡ ok true

  -- A plan made of an option: paid in instalments, with the option's payments, total and dates, and
  -- within the longest duration that the user accepts, where there is one.
  abbrev pub FollowsOption : PaymentOptionInput → Candidate → Type 0
  FollowsOption option c =
      ((option.payment_type ≡ "installments") ⊎ (option.payment_type ≡ "installment"))
      × (c.payment_option_id ≡ some option.payment_option_id)
      × (c.payment_plan ≡ option_plan option)
      × (plan_total c.payment_plan ≡ times option.number_of_payments option.installment_amount)
      × (c.total_payable ≡ option.total_amount)
      × (c.num_payments ≡ option.number_of_payments)
      × (c.first_payment_date ≡ option.first_payment_date)
      × ((first : Date) × (final : Date) × (option.first_payment_date ≡ some first)
          × (option_final_date option ≡ some final)
          × (c.last_payment_date ≡ some final)
          × (c.completes_by_deadline ≡ by_deadline input.completion_date final)
          × IsShort (max_installment_days input.state.max_installment_months) first final)

  -- What is known of a candidate, by its method.
  abbrev pub MethodFacts : PaymentMethod → Candidate → Type 0
  MethodFacts full_payment c =
      (accepts input "full_payment" ≡ true)
      × (c.payment_plan ≡ (input.req_date, input.req_amount) ∷ [])
      × (c.first_payment_date ≡ some input.req_date)
      × (c.total_payable ≡ input.req_amount)
      × (c.is_feasible ≡ true → input.req_amount ≤ℤ input.safe_amount)
      × IsChecked c
  MethodFacts installments c =
      (accepts input "installments" ≡ true)
      × ((option : PaymentOptionInput) × IsIn option input.payment_options × FollowsOption option c)
      × IsChecked c
  MethodFacts partial_payment c =
      (accepts input "partial_payment" ≡ true)
      × (input.allows_partial ≡ true)
      × (zero_money <ℤ input.safe_amount)
      × (input.safe_amount <ℤ input.req_amount)
      × (c.completes_by_deadline ≡ true)
      × ((d : Date) × (input.earliest_full_date ≡ some d)
          × (c.payment_plan ≡ partial_plan input d)
          × (c.last_payment_date ≡ some d))
      × IsChecked c
  MethodFacts PaymentMethod.wait c =
      (accepts input "full_payment" ≡ true)
      × (c.completes_by_deadline ≡ true)
      × ((d : Date) × (input.earliest_full_date ≡ some d)
          × (input.req_date < d)
          × (by_deadline input.completion_date d ≡ true)
          × (c.payment_plan ≡ (d, input.req_amount) ∷ [])
          × (c.first_payment_date ≡ some d))
      × IsChecked c
  MethodFacts PaymentMethod.not_recommended c =
      (c.payment_plan ≡ []) × (c.total_payable ≡ zero_money)

  abbrev pub IsJustified : Candidate → Type 0
  IsJustified c = (c.spending_changes ≡ input.spending_changes) × MethodFacts c.method c

  full_payment-IsJustified : AllOk IsJustified (full_payment_candidates input)
  unfolding full_payment_candidates
  full_payment-IsJustified = ground arith

  abbrev OptionAccepted : PaymentOptionInput → Type 0
  OptionAccepted option =
      (option.payment_type ≡ "installments") ⊎ (option.payment_type ≡ "installment")

  type-OptionAccepted :
      (option : PaymentOptionInput)
      → (option.payment_type == "installments" || option.payment_type == "installment") ≡ true
      → OptionAccepted option
  type-OptionAccepted option h = elim (Bool-cases (option.payment_type == "installments")) [
    | inl many ↦ inl ((string_eq.beq_iff option.payment_type "installments").0 many)
    | inr other ↦ inr ((string_eq.beq_iff option.payment_type "installment").0 (rw other at h))
  ]

  -- Only an option with a first date has a final one.
  final-first :
      (option : PaymentOptionInput) {final : Date}
      → option_final_date option ≡ some final
      → (first : Date) × (option.first_payment_date ≡ some first)
  unfolding option_final_date
  final-first option h = elim (Option-cases option.first_payment_date) [
    | inl absent ↦ let clash = rw absent at h in cc
    | inr given ↦ given
  ]

  installment-IsJustified :
      accepts input "installments" ≡ true
      → (option : PaymentOptionInput) → IsIn option input.payment_options
      → AllOk IsJustified (installment_candidate input option)
  unfolding installment_candidate
  installment-IsJustified h option found =
      elim (Bool-cases
        (option.payment_type == "installments" || option.payment_type == "installment")) [
          | inr other ↦ rw other tt
          | inl typed ↦ elim (Option-cases (option_final_date option)) [
            | inl absent ↦ rw (typed, absent) tt
            | inr (final, last) ↦
                let (first, given) = final-first option last in
                let most = max_installment_days input.state.max_installment_months in
                elim (Bool-cases (too_long most (first_or final option.first_payment_date) final)) [
                  | inl long ↦ rw (typed, last, long) tt
                  | inr short ↦
                      let brief = IsShort-too_long most first final (rw given at short) in
                      rw (typed, last, short)
                        (AllOk-bind IsJustified
                          (is_plan_safe input.state (option_plan option) input.spending_changes) _
                          (λ feasible checked.
                            let passed : feasible ≡ true
                                → is_plan_safe input.state (option_plan option)
                                    input.spending_changes
                                  ≡ ok true =
                              λ e. checked ∙ ap ok e in
                            (
                              (
                                refl,
                                (
                                  h,
                                  (
                                    option,
                                    found,
                                    (
                                      type-OptionAccepted option typed,
                                      refl,
                                      refl,
                                      plan_total-option_plan option first given,
                                      refl,
                                      refl,
                                      refl,
                                      (first, final, given, last, refl, refl, brief),
                                    ),
                                  ),
                                  passed,
                                ),
                              ),
                              tt,
                            )))
                ]
          ]
        ]

  partial_payment-IsJustified : AllOk IsJustified (partial_payment_candidates input)
  unfolding partial_payment_candidates
  partial_payment-IsJustified = ground arith

  wait-IsJustified : AllOk IsJustified (wait_candidates input)
  unfolding wait_candidates
  wait-IsJustified = ground arith

  installments-IsJustified : AllOk IsJustified (installment_candidates input)
  unfolding installment_candidates
  installments-IsJustified = elim (Bool-cases (accepts input "installments")) [
    | inl e ↦ rw e (
        AllOk-flat_map_result IsJustified (installment_candidate input) input.payment_options
          (installment-IsJustified e))
    | inr e ↦ rw e tt
  ]

  fallback-IsJustified : IsJustified (fallback_candidate input.spending_changes)
  unfolding fallback_candidate
  fallback-IsJustified = (refl, (refl, refl))

  pub candidate_parts-IsJustified : AllOk IsJustified (candidate_parts input)
  unfolding candidate_parts
  candidate_parts-IsJustified =
      let P = IsJustified in
      AllOk-bind P (full_payment_candidates input) _ λ full e₁.
        AllOk-bind P (installment_candidates input) _ λ by_installments e₂.
          AllOk-bind P (partial_payment_candidates input) _ λ in_parts e₃.
            AllOk-bind P (wait_candidates input) _ λ later e₄.
              All-append P _ _
                (All-append P _ _
                  (All-append P _ _
                    (All-append P _ _ (All-of_AllOk P _ full_payment-IsJustified e₁)
                      (All-of_AllOk P _ installments-IsJustified e₂))
                    (All-of_AllOk P _ partial_payment-IsJustified e₃))
                  (All-of_AllOk P _ wait-IsJustified e₄))
                (fallback-IsJustified, tt)

pub generate_candidates-AllOk :
    (input : CandidateInput) → AllOk (IsJustified (with_earliest input)) (generate_candidates input)
unfolding generate_candidates
generate_candidates-AllOk input = candidate_parts-IsJustified (with_earliest input)

-- Every candidate that is generated has the changes that it was generated for. A full payment, a wait
-- and a partial payment are of a method that the user accepts and have the plan of that method, dated by
-- the request and by the earliest full date. An instalment plan follows one of the given options, where
-- the user accepts instalments: its type, plan, total, number of payments and dates. Its payments add up
-- to that number of instalments, and it lasts no longer than the user accepts. Each of these has passed
-- the safety check if it is marked feasible. The fallback pays nothing.
pub generate_candidates-IsJustified :
    (input : CandidateInput) {candidates : List Candidate}
    → generate_candidates input ≡ ok candidates
    → All (IsJustified (with_earliest input)) candidates
generate_candidates-IsJustified input =
    All-of_AllOk (IsJustified (with_earliest input)) (generate_candidates input)
      (generate_candidates-AllOk input)
