-- ===== src/Engine/Verdicts.antt =====
-- What stands behind the verdict of a decision.
use mathlib.Core.Path.{subst}
use buy_or_wait_ai_advisor.Common.{
  &&-true, >>=-eq-ok, All-IsIn, All-of_AllOk, AllOk, AllOk-flat_map_result, AllOk-imp, IsIn, [],
  inl, inr, ok, ok-injective, true, ◌≡◌, ◌⊎◌,
}
use buy_or_wait_ai_advisor.Domain.{FinancialState, PaymentMethod, PurchaseProposal, SpendingChanges}
use buy_or_wait_ai_advisor.Decision.Spending.{enumerate_spending_change_combos}
use buy_or_wait_ai_advisor.Decision.Candidates.{Candidate, generate_candidates, with_earliest}
use buy_or_wait_ai_advisor.Decision.Candidates.Plans.{IsJustified, generate_candidates-AllOk}
use buy_or_wait_ai_advisor.Decision.Ranker.{Decision}
use buy_or_wait_ai_advisor.Decision.Ranker.Outcome.{IsAbout, make_decision-IsAbout}
use buy_or_wait_ai_advisor.Engine.{all_candidates, decide, input_of}
use buy_or_wait_ai_advisor.Decision.SafeAmount.{compute_safe_amount}
use buy_or_wait_ai_advisor.Decision.EarliestDate.{find_earliest_full_payment_date}
use buy_or_wait_ai_advisor.Decision.Ranker.Best.{is_fallback→eq, select_best_candidate-IsBest}

module _ (state : FinancialState) (purchase : PurchaseProposal) where
  -- Where a candidate of `all_candidates` comes from.
  abbrev pub IsPlanned : Candidate → Type 0
  IsPlanned c =
      (changes : SpendingChanges) × IsIn changes (enumerate_spending_change_combos state 3)
      × IsJustified (with_earliest (input_of state purchase changes)) c

  all_candidates-IsPlanned : AllOk IsPlanned (all_candidates state purchase)
  unfolding all_candidates
  all_candidates-IsPlanned =
      AllOk-flat_map_result IsPlanned
        (λ changes. generate_candidates (input_of state purchase changes))
        (enumerate_spending_change_combos state 3)
        λ changes found.
          AllOk-imp (IsJustified (with_earliest (input_of state purchase changes))) IsPlanned _
            (λ c fits. (changes, found, fits))
            (generate_candidates-AllOk (input_of state purchase changes))

  -- What a decision of the engine says of the candidate that it is about.
  abbrev pub IsDecisionOn : Decision → Candidate → Type 0
  IsDecisionOn d c =
      IsAbout state purchase.requested_amount purchase.request_date
        (find_earliest_full_payment_date state purchase.requested_amount []) d c

  -- A decision is about the fallback, or about a feasible plan that was generated for one of the
  -- enumerated combinations of changes.
  pub decide-IsPlanned :
      {d : Decision}
      → decide state purchase ≡ ok d
      → (c : Candidate) × IsDecisionOn d c
        × ((c.method ≡ PaymentMethod.not_recommended) ⊎ ((c.is_feasible ≡ true) × IsPlanned c))
  unfolding decide
  decide-IsPlanned {d} e =
      let safe = compute_safe_amount state purchase.requested_amount [] in
      let earliest = find_earliest_full_payment_date state purchase.requested_amount [] in
      let (candidates, listed, made) = >>=-eq-ok (all_candidates state purchase) _ e in
      let (c, about, selected) =
        make_decision-IsAbout state purchase.requested_amount purchase.request_date earliest
          purchase.request_id candidates safe in
      (
        c,
        subst (λ z. IsDecisionOn z c) (ok-injective made) about,
        elim selected [
          | inr fallback ↦ inl fallback
          | inl best ↦
              let (found, why) = select_best_candidate-IsBest candidates best in
              elim why [
                | inr (fallback, _) ↦ inl (is_fallback→eq c.method fallback)
                | inl (ranked, _) ↦ inr (
                  (&&-true _ _ ranked).0,
                  All-IsIn IsPlanned c candidates
                      (All-of_AllOk IsPlanned (all_candidates state purchase)
                        all_candidates-IsPlanned listed)
                      found,
                )
              ]
        ],
      )
