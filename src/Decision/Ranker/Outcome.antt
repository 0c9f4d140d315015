-- ===== src/Decision/Ranker/Outcome.antt =====
-- What `make_decision` returns.
use buy_or_wait_ai_advisor.Common.{
  Bool, Date, List, Money, Option, Option-cases, String, [], arith, false, if◌then◌else◌, inl, inr,
  map, refl, some, sort_by, sort_insert, ◌∙◌, ◌∷◌, ◌≡◌, ◌⊎◌,
}
use buy_or_wait_ai_advisor.Domain.{FinancialState, PaymentMethod, SpendingChanges}
use buy_or_wait_ai_advisor.Decision.Candidates.{Candidate, fallback_candidate}
use buy_or_wait_ai_advisor.Decision.Ranker.{
  Decision, derive_affordability, format_payment_plan, is_empty, is_now, make_decision, or_else,
  select_best_candidate, shown_changes,
}
use buy_or_wait_ai_advisor.Decision.Spending.{cents_of, change_text, format_spending_changes, id_le}
use buy_or_wait_ai_advisor.Decision.EarliestDate.{find_earliest_full_payment_date}

sort_insert-ne-empty :
    {A : Type 0} (le : A → A → Bool) (x : A) (xs : List A) → is_empty (sort_insert le x xs) ≡ false
unfolding sort_insert
sort_insert-ne-empty le x [] = refl
sort_insert-ne-empty le x (y ∷ ys) = ground arith

map-empty : {A B : Type 0} (f : A → B) (xs : List A) → is_empty (map f xs) ≡ is_empty xs
map-empty f [] = refl
map-empty f (x ∷ xs) = refl

-- An empty text of changes says that there are no changes.
pub format_spending_changes-empty :
    (changes : SpendingChanges) → is_empty (format_spending_changes changes) ≡ is_empty changes
unfolding format_spending_changes
format_spending_changes-empty [] = unfold sort_by in refl
format_spending_changes-empty (change ∷ changes) =
    map-empty change_text (sort_by id_le (change ∷ changes))
    ∙ unfold sort_by in sort_insert-ne-empty id_le change (sort_by id_le changes)

-- A plan of one payment is shown as that payment.
pub format_payment_plan-one :
    (c : Candidate) {d : Date} {amt : Money}
    → c.payment_plan ≡ (d, amt) ∷ []
    → format_payment_plan c ≡ (d, cents_of amt) ∷ []
unfolding format_payment_plan sort_by sort_insert
format_payment_plan-one c e = rw e refl

-- What a decision on a request is made from besides the candidates.
module _ (state : FinancialState) (requested_amount : Money) (request_date : Date)
    (earliest : Option Date) where
  -- The earliest date that is reported for a candidate.
  abbrev pub reported_earliest : Candidate → Option Date
  reported_earliest c =
      if is_now (derive_affordability c request_date)
      then some request_date
      else or_else earliest (
          if is_empty c.spending_changes
          then earliest
          else find_earliest_full_payment_date state requested_amount c.spending_changes)

  -- The candidate that a decision is about, and what the decision says of it.
  abbrev pub IsAbout : Decision → Candidate → Type 0
  IsAbout d c =
      (d.best_candidate ≡ some c)
      × (d.recommended_payment_method ≡ c.method)
      × (d.affordability_status ≡ derive_affordability c request_date)
      × (d.payment_plan ≡ format_payment_plan c)
      × (d.spending_changes_needed ≡ shown_changes c.method c.spending_changes)
      × (d.earliest_date_for_full_payment ≡ reported_earliest c)

  module _ (request_id : String) (candidates : List Candidate) (safe_amount : Money) where
    abbrev decision : Decision
    decision =
        make_decision request_id state candidates requested_amount request_date safe_amount earliest

    -- A decision is about a best candidate, or about the fallback where nothing was selected.
    pub make_decision-IsAbout :
        (c : Candidate) × IsAbout decision c
        × ((select_best_candidate candidates ≡ some c) ⊎ (c.method ≡ PaymentMethod.not_recommended))
    unfolding make_decision
    make_decision-IsAbout = elim (Option-cases (select_best_candidate candidates)) [
      | inl e ↦ (
        fallback_candidate [],
        unfold make_decision in rw (e, make_decision) (refl, refl, refl, refl, refl, refl),
        inr refl,
      )
      | inr (c, e) ↦ (c, rw (e, make_decision) (refl, refl, refl, refl, refl, refl), inl e)
    ]
