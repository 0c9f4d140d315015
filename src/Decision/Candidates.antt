-- ===== src/Decision/Candidates.antt =====
-- buyorwait_engine/decision/candidates.py. Options come as `PaymentOptionInput`s, as the engine passes
-- them; the free text `feasibility_note` is left out.
pub mod Totals
pub mod Plans
use buy_or_wait_ai_advisor.Common.{
  Bool, Date, List, Money, Option, Result, String, [], contains, false, flat_map_result,
  if◌then◌else◌, insert, leb, leb_ℤ, lookup_or, ltb, ltb_ℤ, nat_eq, negate, negsuc, none, not, ok,
  pair_eq, pos, some, string_eq, suc, ticks_per_unit, true, zero, zero_money, ℕ, ℤ, ◌&&◌, ◌*◌, ◌++◌,
  ◌+ℤ◌, ◌+◌, ◌-ℤ◌, ◌-◌, ◌/◌, ◌==◌, ◌>>=◌, ◌||◌, ◌∷◌,
}
use buy_or_wait_ai_advisor.Domain.{
  FinancialState, PaymentMethod, PaymentOptionInput, PaymentPlan, SpendingChanges, full_payment,
  installments, partial_payment,
}
use buy_or_wait_ai_advisor.Decision.SafeAmount.{is_plan_safe}
use buy_or_wait_ai_advisor.Decision.EarliestDate.{find_earliest_full_payment_date}

pub record Candidate : Type 0 where
  pub method : PaymentMethod
  pub payment_option_id : Option String
  pub payment_plan : PaymentPlan
  pub spending_changes : SpendingChanges
  pub total_payable : Money
  pub num_payments : ℕ
  pub first_payment_date : Option Date
  pub last_payment_date : Option Date
  pub completes_by_deadline : Bool
  pub is_feasible : Bool

-- The whole part of `months * 31`: `int` drops the fraction, also below zero.
abbrev pub whole_days : Money → ℤ
whole_days (pos months) = pos (months * 31 / ticks_per_unit)
whole_days (negsuc n) = negate (pos ((n + 1) * 31 / ticks_per_unit))

-- `int(max_months * 31)`
unfoldable pub max_installment_days : Option Money → Option ℤ
unfolding negate
max_installment_days none = none
max_installment_days (some months) = some (whole_days months)

-- `first + (number_of_payments - 1) * freq` days; the sum is written with the product first.
unfoldable pub option_final_date : PaymentOptionInput → Option Date
option_final_date option = elim option.first_payment_date [
  | none ↦ none
  | some first ↦
      if option.number_of_payments == 1 then some first else elim option.payment_frequency_days [
        | none ↦ some first
        | some freq ↦ some (first + option.number_of_payments * freq - freq)
      ]
]

-- The loop of `_option_plan`, by the payments that are left. `0` for a missing frequency: the date
-- then stays.
unfoldable pub option_plan_loop : ℕ → Date → ℕ → Money → PaymentPlan → PaymentPlan
option_plan_loop zero dt freq amt plan = plan
option_plan_loop (suc left) dt freq amt plan =
    option_plan_loop left (dt + freq) freq amt
      (insert dt (lookup_or dt zero_money plan +ℤ amt) plan)

abbrev pub days_or_zero : Option ℕ → ℕ
days_or_zero none = 0
days_or_zero (some freq) = freq

unfoldable pub option_plan : PaymentOptionInput → PaymentPlan
unfolding option_plan_loop
option_plan option = elim option.first_payment_date [
  | none ↦ []
  | some first ↦
      option_plan_loop option.number_of_payments first (days_or_zero option.payment_frequency_days)
        option.installment_amount []
]

-- What the five parts of `generate_candidates` share.
pub record CandidateInput : Type 0 where
  pub state : FinancialState
  pub req_amount : Money
  pub req_date : Date
  pub completion_date : Option Date
  pub allows_partial : Bool
  pub payment_options : List PaymentOptionInput
  pub spending_changes : SpendingChanges
  pub safe_amount : Money
  pub earliest_full_date : Option Date

-- `d <= completion_date if completion_date else True`
abbrev pub by_deadline : Option Date → Date → Bool
by_deadline none d = true
by_deadline (some limit) d = leb d limit

abbrev pub accepts : CandidateInput → String → Bool
accepts input method = contains method input.state.payment_methods

-- ---- 1. full_payment ----
unfoldable pub full_payment_candidates : CandidateInput → Result (List Candidate)
full_payment_candidates input =
    if accepts input "full_payment"
    then (do
      let plan : PaymentPlan = (input.req_date, input.req_amount) ∷ []
      feasible ←
          if leb_ℤ input.req_amount input.safe_amount
          then is_plan_safe input.state plan input.spending_changes
          else ok false
      ok (
          record {
            method = full_payment;
            payment_option_id = none;
            payment_plan = plan;
            spending_changes = input.spending_changes;
            total_payable = input.req_amount;
            num_payments = 1;
            first_payment_date = some input.req_date;
            last_payment_date = some input.req_date;
            completes_by_deadline = by_deadline input.completion_date input.req_date;
            is_feasible = feasible;
          }
          ∷ []))
    else ok []

-- `(final_date - first).days`
abbrev pub days_between : Date → Date → ℤ
days_between first final_date = pos final_date -ℤ pos first

-- `option.first_payment_date`, which is there when there is a final date.
abbrev pub first_or : Date → Option Date → Date
first_or final_date none = final_date
first_or final_date (some first) = first

-- `duration_days > max_inst_days`, where there is a maximum.
abbrev pub too_long : Option ℤ → Date → Date → Bool
too_long none first final_date = false
too_long (some most) first final_date = ltb_ℤ most (days_between first final_date)

-- One round of the loop over the options.
unfoldable pub installment_candidate : CandidateInput → PaymentOptionInput → Result (List Candidate)
unfolding option_final_date max_installment_days option_plan
installment_candidate input option =
    if not (option.payment_type == "installments" || option.payment_type == "installment")
    then ok []
    else elim (option_final_date option) [
      | none ↦ ok []
      | some final_date ↦
          if too_long (max_installment_days input.state.max_installment_months)
            (first_or final_date option.first_payment_date) final_date
          then ok []
          else (do
            let plan = option_plan option
            feasible ← is_plan_safe input.state plan input.spending_changes
            ok (
                record {
                  method = installments;
                  payment_option_id = some option.payment_option_id;
                  payment_plan = plan;
                  spending_changes = input.spending_changes;
                  total_payable = option.total_amount;
                  num_payments = option.number_of_payments;
                  first_payment_date = option.first_payment_date;
                  last_payment_date = some final_date;
                  completes_by_deadline = by_deadline input.completion_date final_date;
                  is_feasible = feasible;
                }
                ∷ []))
    ]

-- ---- 2. installments ----
unfoldable pub installment_candidates : CandidateInput → Result (List Candidate)
unfolding installment_candidate
installment_candidates input =
    if accepts input "installments"
    then flat_map_result (installment_candidate input) input.payment_options
    else ok []

-- The dict literal `{req_date: safe, earliest: remaining}`: a second entry of one date overwrites.
abbrev pub partial_plan : CandidateInput → Date → PaymentPlan
partial_plan input earliest =
    insert earliest (input.req_amount -ℤ input.safe_amount)
      ((input.req_date, input.safe_amount) ∷ [])

-- ---- 3. partial_payment ----
unfoldable pub partial_payment_candidates : CandidateInput → Result (List Candidate)
partial_payment_candidates input =
    if (input.allows_partial && accepts input "partial_payment")
      && (ltb_ℤ zero_money input.safe_amount && ltb_ℤ input.safe_amount input.req_amount)
    then elim input.earliest_full_date [
      | none ↦ ok []
      | some earliest ↦
          if by_deadline input.completion_date earliest
          then (do
            feasible ← is_plan_safe input.state (partial_plan input earliest) input.spending_changes
            ok (
                record {
                  method = partial_payment;
                  payment_option_id = none;
                  payment_plan = partial_plan input earliest;
                  spending_changes = input.spending_changes;
                  total_payable = input.req_amount;
                  num_payments = 2;
                  first_payment_date = some input.req_date;
                  last_payment_date = some earliest;
                  completes_by_deadline = by_deadline input.completion_date earliest;
                  is_feasible = feasible;
                }
                ∷ []))
          else ok []
    ]
    else ok []

-- ---- 4. wait ----
unfoldable pub wait_candidates : CandidateInput → Result (List Candidate)
wait_candidates input =
    if accepts input "full_payment"
    then elim input.earliest_full_date [
      | none ↦ ok []
      | some earliest ↦
          if ltb input.req_date earliest && by_deadline input.completion_date earliest
          then (do
            let plan : PaymentPlan = (earliest, input.req_amount) ∷ []
            feasible ← is_plan_safe input.state plan input.spending_changes
            ok (
                record {
                  method = PaymentMethod.wait;
                  payment_option_id = none;
                  payment_plan = plan;
                  spending_changes = input.spending_changes;
                  total_payable = input.req_amount;
                  num_payments = 1;
                  first_payment_date = some earliest;
                  last_payment_date = some earliest;
                  completes_by_deadline = by_deadline input.completion_date earliest;
                  is_feasible = feasible;
                }
                ∷ []))
          else ok []
    ]
    else ok []

-- ---- 5. not_recommended (fallback) ----
unfoldable pub fallback_candidate : SpendingChanges → Candidate
fallback_candidate changes = record {
  method = PaymentMethod.not_recommended;
  payment_option_id = none;
  payment_plan = [];
  spending_changes = changes;
  total_payable = zero_money;
  num_payments = 0;
  first_payment_date = none;
  last_payment_date = none;
  completes_by_deadline = false;
  is_feasible = true;
}

unfoldable pub candidate_parts : CandidateInput → Result (List Candidate)
unfolding full_payment_candidates installment_candidates partial_payment_candidates wait_candidates
    fallback_candidate
candidate_parts input = do
  full ← full_payment_candidates input
  by_installments ← installment_candidates input
  in_parts ← partial_payment_candidates input
  later ← wait_candidates input
  ok (
      full
      ++ by_installments
      ++ in_parts
      ++ later
      ++ fallback_candidate input.spending_changes ∷ [])

-- `if earliest_full_date is None: earliest_full_date = find_earliest_full_payment_date(…)`
unfoldable pub with_earliest : CandidateInput → CandidateInput
with_earliest input = record input {
  earliest_full_date = elim input.earliest_full_date [
    | none ↦ find_earliest_full_payment_date input.state input.req_amount input.spending_changes
    | some d ↦ some d
  ];
}

unfoldable pub generate_candidates : CandidateInput → Result (List Candidate)
unfolding candidate_parts with_earliest
generate_candidates input = candidate_parts (with_earliest input)
