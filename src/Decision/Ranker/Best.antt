-- ===== src/Decision/Ranker/Best.antt =====
-- What `select_best_candidate` returns.
use mathlib.Core.Path.{subst}
use mathlib.Core.Option.{some-injective}
use buy_or_wait_ai_advisor.Common.{
  All, All-IsIn, All-of_IsIn, IsIn, List, List-cases, [], arith, first_of_list-some, head_of,
  head_of-sort_by, inl, inr, least_of, least_of-IsIn, least_of-le, select, select-All, select-IsIn,
  some, sort_by, sym, true, ◌∙◌, ◌∷◌, ◌≡◌, ◌≤ℤ◌, ◌⊎◌,
}
use buy_or_wait_ai_advisor.Decision.Candidates.{Candidate}
use buy_or_wait_ai_advisor.Decision.Ranker.{
  is_empty, is_fallback, is_rankable, rank_key, rank_order, select_best_candidate,
}
use buy_or_wait_ai_advisor.Domain.{PaymentMethod}

-- A candidate that is ranked and none of the ranked ones has a lower key; or the fallback, where no
-- candidate is ranked.
abbrev pub IsBest : List Candidate → Candidate → Type 0
IsBest candidates c =
    IsIn c candidates
    × (((is_rankable c ≡ true)
          × All (λ y. is_rankable y ≡ true → rank_order.le c y ≡ true) candidates)
        ⊎ ((is_fallback c.method ≡ true) × (select is_rankable candidates ≡ [])))

sorted-IsBest :
    (candidates : List Candidate) (x : Candidate) (xs : List Candidate)
    → select is_rankable candidates ≡ x ∷ xs
    → IsBest candidates (least_of rank_order.le x xs)
sorted-IsBest candidates x xs e =
    let best = least_of rank_order.le x xs in
    let chosen : IsIn best (select is_rankable candidates) =
      subst (IsIn best) (sym e) (least_of-IsIn rank_order x xs) in
    let least : All (λ y. rank_order.le best y ≡ true) (select is_rankable candidates) =
      subst (All (λ y. rank_order.le best y ≡ true)) (sym e) (least_of-le rank_order x xs) in
    let (found, ranked) = select-IsIn is_rankable best candidates chosen in
    (found, inl (ranked, select-All _ is_rankable candidates least))

-- A candidate that is returned is among the given ones: of the feasible plans one with the least
-- ranking key, and the fallback only where no plan is feasible.
pub select_best_candidate-IsBest :
    (candidates : List Candidate) {c : Candidate}
    → select_best_candidate candidates ≡ some c
    → IsBest candidates c
unfolding select_best_candidate
select_best_candidate-IsBest candidates {c} e = elim (List-cases (select is_rankable candidates)) [
  | inl none_ranked ↦
      let (found, fallback) =
        first_of_list-some (λ y. is_fallback y.method) candidates
          (rw (none_ranked, select_best_candidate) at e) in
      (found, inr (fallback, none_ranked))
  | inr (x, xs, ranked) ↦
      let front : head_of (sort_by rank_order.le (x ∷ xs)) ≡ some c =
        rw (ranked, select_best_candidate) at e in
      let same = some-injective _ _ (sym (head_of-sort_by rank_order x xs) ∙ front) in
      subst (IsBest candidates) same (sorted-IsBest candidates x xs ranked)
]

pub is_fallback→eq : (m : PaymentMethod) → is_fallback m ≡ true → m ≡ PaymentMethod.not_recommended
is_fallback→eq m h = ground arith

-- The tiers of the ranking, read off a comparison of two keys.
abbrev pub Outranks : Candidate → Candidate → Type 0
Outranks c y =
    (y.completes_by_deadline ≡ true → c.completes_by_deadline ≡ true)
    × (c.completes_by_deadline ≡ y.completes_by_deadline
        → is_empty y.spending_changes ≡ true
        → is_empty c.spending_changes ≡ true)
    × (c.completes_by_deadline ≡ y.completes_by_deadline
        → is_empty c.spending_changes ≡ is_empty y.spending_changes
        → c.total_payable ≤ℤ y.total_payable)

le→Outranks : (c y : Candidate) → rank_order.le c y ≡ true → Outranks c y
unfolding rank_key
le→Outranks c y h = ground arith

-- The chosen plan completes by the deadline if any feasible plan does; among those equal in that, it
-- needs no spending changes if any needs none; and among those equal in both, none is cheaper.
pub select_best_candidate-Outranks :
    (candidates : List Candidate) {c : Candidate}
    → select_best_candidate candidates ≡ some c
    → All (λ y. is_rankable y ≡ true → Outranks c y) candidates
select_best_candidate-Outranks candidates {c} e =
    All-of_IsIn (λ y. is_rankable y ≡ true → Outranks c y) candidates
      λ y found ranked. elim (select_best_candidate-IsBest candidates e).1 [
        | inl (_, least) ↦ le→Outranks c y (
            All-IsIn (λ z. is_rankable z ≡ true → rank_order.le c z ≡ true) y candidates least found
              ranked)
        | inr (_, none_ranked) ↦
            let nothing : All (λ z. ⊥) (select is_rankable candidates) =
              subst (All (λ z. ⊥)) (sym none_ranked) tt in
            absurd (
              All-IsIn (λ z. is_rankable z ≡ true → ⊥) y candidates
                (select-All (λ z. ⊥) is_rankable candidates nothing) found ranked)
      ]
