-- ===== src/Backend/Ingestion/Deduplicator/Ledger.antt =====
-- The hashes in a ledger: backend/ingestion/deduplicator.py.
use mathlib.Core.Path.{subst}
use mathlib.Core.List.{cons≢nil}
use buy_or_wait_ai_advisor.Common.{
  All, AllDistinct, Bool, Bool-cases, IsIn, List, String, [], ap, arith, false, false≢true, inl,
  inr, map, nat_eq, ok, pair_eq, refl, select, string_eq, sym, true, ◌++◌, ◌==◌, ◌∙◌, ◌∷◌, ◌≡◌,
}
use buy_or_wait_ai_advisor.Backend.Ingestion.Models.{ImportId, Transaction}
use buy_or_wait_ai_advisor.Backend.Ingestion.Deduplicator.{
  has_hash, is_duplicate_transaction, one_or_none,
}

-- The hashes of a user's transactions.
abbrev pub user_hashes : ImportId → List Transaction → List String
user_hashes user_id ledger = map Transaction.dedup_hash (select (λ t. t.user_id == user_id) ledger)

-- No user has two transactions with one hash.
abbrev pub IsSound : List Transaction → Type 0
IsSound ledger = (user_id : ImportId) → AllDistinct (user_hashes user_id ledger)

abbrev pub IsFresh : ImportId → String → List Transaction → Type 0
IsFresh user_id h ledger = ¬ IsIn h (user_hashes user_id ledger)

not_here : (t : Transaction) (h : String) → ¬ (h ≡ t.dedup_hash) → (t.dedup_hash == h) ≡ false
not_here t h other = elim (Bool-cases (t.dedup_hash == h)) [
  | inl same ↦ absurd (other (sym ((string_eq.beq_iff t.dedup_hash h).0 same)))
  | inr different ↦ different
]

pub IsFresh-select :
    (user_id : ImportId) (h : String) (ledger : List Transaction)
    → IsFresh user_id h ledger
    → select (has_hash user_id h) ledger ≡ []
IsFresh-select user_id h [] fresh = refl
IsFresh-select user_id h (t ∷ ledger) fresh = elim (Bool-cases (t.user_id == user_id)) [
  | inl own ↦
      let apart : ¬ (IsIn h (t.dedup_hash ∷ user_hashes user_id ledger)) = rw own at fresh in
      rw (own, not_here t h (λ e. apart (inl e)))
        (IsFresh-select user_id h ledger (λ m. apart (inr m)))
  | inr foreign ↦
      let apart : IsFresh user_id h ledger = rw foreign at fresh in
      rw foreign (IsFresh-select user_id h ledger apart)
]

pub IsFresh-of_select :
    (user_id : ImportId) (h : String) (ledger : List Transaction)
    → select (has_hash user_id h) ledger ≡ []
    → IsFresh user_id h ledger
IsFresh-of_select user_id h [] none_found = λ m. m
IsFresh-of_select user_id h (t ∷ ledger) none_found = elim (Bool-cases (has_hash user_id h t)) [
  | inl found ↦ absurd (cons≢nil (rw found at none_found))
  | inr missing ↦
      let rest = IsFresh-of_select user_id h ledger (rw missing at none_found) in
      elim (Bool-cases (t.user_id == user_id)) [
        | inl own ↦
            let other : (t.dedup_hash == h) ≡ false = rw own at missing in
            rw own (λ m. elim m [
              | inl e ↦
                  absurd (false≢true (sym other ∙ (string_eq.beq_iff t.dedup_hash h).1 (sym e)))
              | inr there ↦ rest there
            ])
        | inr foreign ↦ rw foreign rest
      ]
]

pub is_duplicate_transaction-false :
    (ledger : List Transaction) (user_id : ImportId) (h : String)
    → is_duplicate_transaction ledger user_id h ≡ ok false
    → IsFresh user_id h ledger
unfolding is_duplicate_transaction
is_duplicate_transaction-false ledger user_id h e =
    IsFresh-of_select user_id h ledger (one_or_none-false (select (has_hash user_id h) ledger) e)
  where
    one_or_none-false : (found : List Transaction) → one_or_none found ≡ ok false → found ≡ []
    one_or_none-false [] e = refl
    one_or_none-false (t ∷ []) e = cc
    one_or_none-false (t ∷ u ∷ found) e = cc

pub is_duplicate_transaction-fresh :
    (ledger : List Transaction) (user_id : ImportId) (h : String)
    → IsFresh user_id h ledger
    → is_duplicate_transaction ledger user_id h ≡ ok false
unfolding is_duplicate_transaction
is_duplicate_transaction-fresh ledger user_id h fresh =
    ap one_or_none (IsFresh-select user_id h ledger fresh)

-- On a ledger without repetition the query does not raise.
pub is_duplicate_transaction-returns :
    (ledger : List Transaction) (user_id : ImportId) (h : String)
    → AllDistinct (user_hashes user_id ledger)
    → (b : Bool) × (is_duplicate_transaction ledger user_id h ≡ ok b)
unfolding is_duplicate_transaction
is_duplicate_transaction-returns [] user_id h sound = (false, refl)
is_duplicate_transaction-returns (t ∷ ledger) user_id h sound =
    elim (Bool-cases (t.user_id == user_id)) [
      | inl own ↦
          let apart : (¬ IsIn t.dedup_hash (user_hashes user_id ledger))
              × AllDistinct (user_hashes user_id ledger) =
            rw own at sound in
          elim (Bool-cases (t.dedup_hash == h)) [
            | inl same ↦
                let fresh =
                  subst (λ z. IsFresh user_id z ledger) ((string_eq.beq_iff t.dedup_hash h).0 same)
                    apart.0 in
                rw (own, same, IsFresh-select user_id h ledger fresh) (true, refl)
            | inr other ↦
                rw (own, other) (is_duplicate_transaction-returns ledger user_id h apart.1)
          ]
      | inr foreign ↦
          rw foreign (is_duplicate_transaction-returns ledger user_id h (rw foreign at sound))
    ]

pub user_hashes-append :
    (user_id : ImportId) (xs ys : List Transaction)
    → user_hashes user_id (xs ++ ys) ≡ user_hashes user_id xs ++ user_hashes user_id ys
user_hashes-append user_id [] ys = refl
user_hashes-append user_id (t ∷ xs) ys = ground (arith, user_hashes-append user_id xs ys)

pub user_hashes-own :
    (user_id : ImportId) (txs : List Transaction)
    → All (λ t. t.user_id ≡ user_id) txs
    → user_hashes user_id txs ≡ map Transaction.dedup_hash txs
user_hashes-own user_id [] all = refl
user_hashes-own user_id (t ∷ txs) all =
    rw ((string_eq.beq_iff t.user_id user_id).1 all.0)
      (ap (λ hs. t.dedup_hash ∷ hs) (user_hashes-own user_id txs all.1))

pub user_hashes-foreign :
    (user_id v : ImportId) (txs : List Transaction)
    → All (λ t. t.user_id ≡ user_id) txs
    → (user_id == v) ≡ false
    → user_hashes v txs ≡ []
user_hashes-foreign user_id v [] all other = refl
user_hashes-foreign user_id v (t ∷ txs) all other =
    rw (all.0, other) (user_hashes-foreign user_id v txs all.1 other)
