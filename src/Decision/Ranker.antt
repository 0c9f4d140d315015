-- ===== src/Decision/Ranker.antt =====
-- buyorwait_engine/decision/ranker.py. The plan and the changes of a decision are the parts of their
-- texts; the free text `decision_explanation` is left out.
pub mod Best
pub mod Outcome
use buy_or_wait_ai_advisor.Common.{
  Bool, Date, List, Money, Option, Order, String, [], false, first_of_list, head_of, if◌then◌else◌,
  int_order, leb, lex_order, map, max_ℤ, min_ℤ, nat_eq, nat_order, none, not, order_by, pos, select,
  some, sort_by, string_eq, sub_ℕ, true, zero_money, ℕ, ℤ, ◌&&◌, ◌==◌, ◌∷◌,
}
use buy_or_wait_ai_advisor.Domain.{
  AffordabilityStatus, FinancialState, PaymentMethod, SpendingChanges, affordable_later,
  affordable_now, affordable_with_plan, full_payment, installments, not_affordable, partial_payment,
}
use buy_or_wait_ai_advisor.Decision.EarliestDate.{find_earliest_full_payment_date}
use buy_or_wait_ai_advisor.Decision.Candidates.{Candidate, fallback_candidate}
use buy_or_wait_ai_advisor.Decision.Spending.{ChangeText, cents_of, format_spending_changes}

pub record Decision : Type 0 where
  pub request_id : String
  pub amount_safe_to_pay : Money
  pub affordability_status : AffordabilityStatus
  pub recommended_payment_method : PaymentMethod
  pub payment_plan : List (Date × ℤ)
  pub earliest_date_for_full_payment : Option Date
  pub spending_changes_needed : List ChangeText
  pub best_candidate : Option Candidate

abbrev pub RankKey : Type 0
RankKey = ℕ × (ℕ × (Money × (ℤ × ℕ)))

abbrev pub is_empty {ℓ} : {A : Type ℓ} → List A → Bool
is_empty [] = true
is_empty (x ∷ xs) = false

-- `date(2000, 1, 1).toordinal()`
abbrev pub epoch_2000 : Date
epoch_2000 = 730_120

-- `_rank_key`: lower is better. The cost stays exact, where the code compares it as a float.
unfoldable pub rank_key : Candidate → RankKey
rank_key c = (
  if c.completes_by_deadline then 0 else 1,
  (
    if is_empty c.spending_changes then 0 else 1,
    (
      c.total_payable,
      (
        elim c.first_payment_date [ none ↦ pos 99_999 | some d ↦ sub_ℕ d epoch_2000 ],
        c.num_payments,
      ),
    ),
  ),
)

abbrev pub key_order : Order RankKey
key_order =
    lex_order nat_order (lex_order nat_order (lex_order int_order (lex_order int_order nat_order)))

abbrev pub rank_order : Order Candidate
rank_order = order_by key_order rank_key

abbrev pub is_fallback : PaymentMethod → Bool
is_fallback PaymentMethod.not_recommended = true
is_fallback _ = false

-- `c.is_feasible and c.method != 'not_recommended'`
abbrev pub is_rankable : Candidate → Bool
is_rankable c = c.is_feasible && not (is_fallback c.method)

unfoldable pub select_best_candidate : List Candidate → Option Candidate
select_best_candidate candidates = elim (select is_rankable candidates) [
  | [] ↦ first_of_list (λ c. is_fallback c.method) candidates
  | c ∷ cs ↦ head_of (sort_by rank_order.le (c ∷ cs))
]

abbrev pub date_le : Date × Money → Date × Money → Bool
date_le (a, _) (b, _) = leb a b

-- `_format_payment_plan`: by date, each amount as a number of cents; `[]` stands for `'none'`.
unfoldable pub format_payment_plan : Candidate → List (Date × ℤ)
format_payment_plan c = map (λ (d, amt). (d, cents_of amt)) (sort_by date_le c.payment_plan)

abbrev pub is_date : Option Date → Date → Bool
is_date none d = false
is_date (some other) d = other == d

abbrev pub affordability_by : PaymentMethod → Bool → Bool → AffordabilityStatus
affordability_by PaymentMethod.not_recommended unchanged today = not_affordable
affordability_by PaymentMethod.wait unchanged today = affordable_later
affordability_by full_payment unchanged today =
    if unchanged then if today then affordable_now else affordable_later else affordable_with_plan
affordability_by installments unchanged today = affordable_with_plan
affordability_by partial_payment unchanged today = affordable_with_plan

-- `_derive_affordability_clean`
unfoldable pub derive_affordability : Candidate → Date → AffordabilityStatus
derive_affordability best request_date =
    affordability_by best.method (is_empty best.spending_changes)
      (is_date best.first_payment_date request_date)

-- `spending_changes_str`: nothing is said of the changes of a `wait`.
abbrev pub shown_changes : PaymentMethod → SpendingChanges → List ChangeText
shown_changes PaymentMethod.wait changes = []
shown_changes PaymentMethod.not_recommended changes = []
shown_changes _ changes = format_spending_changes changes

abbrev pub or_else {ℓ} : {A : Type ℓ} → Option A → Option A → Option A
or_else none b = b
or_else (some a) b = some a

abbrev pub is_now : AffordabilityStatus → Bool
is_now affordable_now = true
is_now _ = false

unfoldable pub make_decision :
    String → FinancialState → List Candidate → Money → Date → Money → Option Date → Decision
unfolding select_best_candidate derive_affordability format_payment_plan fallback_candidate
make_decision request_id state all_candidates requested_amount request_date safe_amount earliest =
    let best : Candidate = elim (select_best_candidate all_candidates) [
      | none ↦ fallback_candidate []
      | some c ↦ c
    ] in
    let eff_earliest : Option Date =
      if is_empty best.spending_changes
      then earliest
      else find_earliest_full_payment_date state requested_amount best.spending_changes in
    let affordability = derive_affordability best request_date in
    record {
      request_id = request_id;
      amount_safe_to_pay = max_ℤ zero_money (min_ℤ requested_amount safe_amount);
      affordability_status = affordability;
      recommended_payment_method = best.method;
      payment_plan = format_payment_plan best;
      earliest_date_for_full_payment =
          if is_now affordability then some request_date else or_else earliest eff_earliest;
      spending_changes_needed = shown_changes best.method best.spending_changes;
      best_candidate = some best;
    }
