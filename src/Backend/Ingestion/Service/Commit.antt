-- ===== src/Backend/Ingestion/Service/Commit.antt =====
-- `commit_statement_batch` of backend/ingestion/service.py on the ledger.
use mathlib.Core.Path.{subst}
use buy_or_wait_ai_advisor.Common.{
  >>=-eq-ok, All, AllDistinct, AllDistinct-append, Bool, Bool-cases, IsIn, List, String, [], ap,
  arith, false, if◌then◌else◌, inl, inr, length, map, nat_eq, ok, ok-injective, pair_eq, refl,
  string_eq, sym, true, ℕ, ◌++◌, ◌==◌, ◌>>=◌, ◌∙◌, ◌∷◌, ◌≡◌,
}
use buy_or_wait_ai_advisor.Backend.Ingestion.Models.{
  ImportId, NormalizedTransaction, Session, Transaction,
}
use buy_or_wait_ai_advisor.Backend.Ingestion.Rows.Hashes.{accepted_hashes, is_accepted}
use buy_or_wait_ai_advisor.Backend.Ingestion.Deduplicator.Ledger.{
  IsFresh, IsSound, is_duplicate_transaction-false, is_duplicate_transaction-returns, user_hashes,
  user_hashes-append, user_hashes-foreign, user_hashes-own,
}
use buy_or_wait_ai_advisor.Backend.Ingestion.Service.{
  can_commit, commit_items, commit_statement_batch, committable, find_batch, transaction_of,
}
use buy_or_wait_ai_advisor.Backend.Ingestion.Deduplicator.{is_duplicate_transaction}

abbrev tx_hashes : List Transaction → List String
tx_hashes txs = map Transaction.dedup_hash txs

module _ (ledger : List Transaction) (user_id batch_id : ImportId) where
  pub commit_items-returns :
      (override_ambiguous : Bool) (items : List NormalizedTransaction)
      → AllDistinct (user_hashes user_id ledger)
      → (txs : List Transaction) × (commit_items ledger user_id batch_id override_ambiguous items
          ≡ ok txs)
  unfolding commit_items
  commit_items-returns override_ambiguous [] sound = ([], refl)
  commit_items-returns override_ambiguous (item ∷ items) sound =
      let (txs, rest) = commit_items-returns override_ambiguous items sound in
      elim (Bool-cases (can_commit user_id batch_id override_ambiguous item)) [
        | inl passed ↦
            let (b, found) =
              is_duplicate_transaction-returns ledger user_id item.dedup_hash sound in
            rw (passed, found, rest) (_, refl)
        | inr left ↦ rw left (txs, rest)
      ]

  -- What is added: the user's own, with hashes of accepted items that are new to the ledger.
  abbrev Added : List NormalizedTransaction → List Transaction → Type 0
  Added items txs =
      All (λ t. t.user_id ≡ user_id) txs
      × ((h : String)
          → IsIn h (tx_hashes txs)
          → IsIn h (accepted_hashes items) × IsFresh user_id h ledger)
      × AllDistinct (tx_hashes txs)

  accepted_hashes-later :
      (item : NormalizedTransaction) (items : List NormalizedTransaction) (h : String)
      → IsIn h (accepted_hashes items)
      → IsIn h (accepted_hashes (item ∷ items))
  accepted_hashes-later item items h m = elim (Bool-cases (is_accepted item)) [
    | inl passed ↦ rw passed (inr m)
    | inr left ↦ rw left m
  ]

  Added-later :
      (item : NormalizedTransaction) (items : List NormalizedTransaction) (txs : List Transaction)
      → Added items txs
      → Added (item ∷ items) txs
  Added-later item items txs (own, from, distinct) = (
    own,
    λ h m. let (found, fresh) = from h m in (accepted_hashes-later item items h found, fresh),
    distinct,
  )

  Added-here :
      (item : NormalizedTransaction) (items : List NormalizedTransaction) (txs : List Transaction)
      → is_accepted item ≡ true
      → AllDistinct (accepted_hashes (item ∷ items))
      → IsFresh user_id item.dedup_hash ledger
      → Added items txs
      → Added (item ∷ items) (transaction_of user_id batch_id item ∷ txs)
  unfolding transaction_of
  Added-here item items txs passed apart fresh (own, from, distinct) =
      let first : ¬ IsIn item.dedup_hash (accepted_hashes items) = (rw passed at apart).0 in
      (
        (refl, own),
        λ h m. elim m [
          | inl e ↦ (rw passed (inl e), subst (λ z. IsFresh user_id z ledger) (sym e) fresh)
          | inr later ↦
              let (found, new) = from h later in (accepted_hashes-later item items h found, new)
        ],
        (λ m. first (from item.dedup_hash m).0, distinct),
      )

  distinct_rest :
      (item : NormalizedTransaction) (items : List NormalizedTransaction)
      → AllDistinct (accepted_hashes (item ∷ items))
      → AllDistinct (accepted_hashes items)
  distinct_rest item items apart = elim (Bool-cases (is_accepted item)) [
    | inl passed ↦ (rw passed at apart).1
    | inr left ↦ rw left at apart
  ]

  pub can_commit-own :
      (item : NormalizedTransaction)
      → item.user_id ≡ user_id
      → item.import_batch_id ≡ batch_id
      → is_accepted item ≡ true
      → can_commit user_id batch_id false item ≡ true
  unfolding can_commit
  can_commit-own item own same accepted =
      rw
        (
          (string_eq.beq_iff item.import_batch_id batch_id).1 same,
          (string_eq.beq_iff item.user_id user_id).1 own,
          accepted,
        )
        refl

  pub can_commit-other :
      (item : NormalizedTransaction)
      → is_accepted item ≡ false
      → can_commit user_id batch_id false item ≡ false
  unfolding can_commit
  can_commit-other item other = ground arith

  can_commit-accepted :
      (item : NormalizedTransaction)
      → can_commit user_id batch_id false item ≡ true
      → is_accepted item ≡ true
  unfolding can_commit
  can_commit-accepted item h = ground arith

  commit_items-Added :
      (items : List NormalizedTransaction) {txs : List Transaction}
      → AllDistinct (accepted_hashes items)
      → commit_items ledger user_id batch_id false items ≡ ok txs
      → Added items txs
  unfolding commit_items
  commit_items-Added [] apart e = subst (Added []) (ok-injective e) (tt, (λ h m. absurd m), tt)
  commit_items-Added (item ∷ items) apart e =
      elim (Bool-cases (can_commit user_id batch_id false item)) [
        | inr left ↦
            Added-later item items _
              (commit_items-Added items (distinct_rest item items apart) (rw left at e))
        | inl passed ↦
            let tx = transaction_of user_id batch_id item in
            let (is_dup, found, rest) =
              >>=-eq-ok (is_duplicate_transaction ledger user_id item.dedup_hash)
                (λ b. do
                  to_commit ← commit_items ledger user_id batch_id false items
                  ok (if b then to_commit else tx ∷ to_commit))
                (rw passed at e) in
            let (others, committed_others, made) =
              >>=-eq-ok (commit_items ledger user_id batch_id false items)
                (λ to_commit. ok (if is_dup then to_commit else tx ∷ to_commit)) rest in
            let added =
              commit_items-Added items (distinct_rest item items apart) committed_others in
            elim (Bool-cases is_dup) [
              | inl dup ↦
                  subst (Added (item ∷ items)) (ok-injective (rw dup at made))
                    (Added-later item items others added)
              | inr new ↦ subst (Added (item ∷ items)) (ok-injective (rw new at made)) (
                  Added-here item items others (can_commit-accepted item passed) apart
                    (is_duplicate_transaction-false ledger user_id item.dedup_hash
                      (found ∙ ap ok new))
                    added)
            ]
      ]

  Added-IsSound :
      (items : List NormalizedTransaction) (txs : List Transaction)
      → IsSound ledger
      → Added items txs
      → IsSound (ledger ++ txs)
  Added-IsSound items txs sound (own, from, distinct) v =
      subst AllDistinct (sym (user_hashes-append v ledger txs)) (elim (Bool-cases (user_id == v)) [
        | inl same ↦
            let e = (string_eq.beq_iff user_id v).0 same in
            subst (λ u. AllDistinct (user_hashes u ledger ++ user_hashes u txs)) e
              (subst (λ hs. AllDistinct (user_hashes user_id ledger ++ hs))
                (sym (user_hashes-own user_id txs own))
                (AllDistinct-append (user_hashes user_id ledger) (tx_hashes txs) (sound user_id)
                  distinct (λ h m added. (from h added).1 m)))
        | inr foreign ↦
            subst (λ hs. AllDistinct (user_hashes v ledger ++ hs))
              (sym (user_hashes-foreign user_id v txs own foreign))
              (AllDistinct-append (user_hashes v ledger) [] (sound v) tt
                (λ h m none_there. none_there))
      ])

-- A commit without the override keeps the ledger free of repetition: where no user has two transactions
-- with one hash and the verified items have different hashes, the commit only appends, as many
-- transactions as it reports, and again no user has two with one hash.
pub commit_statement_batch-IsSound :
    (session : Session) (user_id batch_id : ImportId) (items : List NormalizedTransaction)
    {session' : Session} {count : ℕ}
    → IsSound session.transactions
    → AllDistinct (accepted_hashes items)
    → commit_statement_batch session user_id batch_id items false ≡ ok (session', count)
    → IsSound session'.transactions
      × ((txs : List Transaction) × (session'.transactions ≡ session.transactions ++ txs)
          × (length txs ≡ count))
unfolding commit_statement_batch
commit_statement_batch-IsSound session user_id batch_id items {session'} {count} sound apart e =
    let (batch, checked, rest) =
      >>=-eq-ok (committable user_id (find_batch batch_id session.batches)) _ e in
    let (txs, collected, made) =
      >>=-eq-ok (commit_items session.transactions user_id batch_id false items) _ rest in
    let result = ok-injective made in
    let added = commit_items-Added session.transactions user_id batch_id items apart collected in
    let appended = ap (λ r. r.0.transactions) result in
    (
      subst IsSound appended
          (Added-IsSound session.transactions user_id batch_id items txs sound added),
      (txs, sym appended, ap (λ r. r.1) result),
    )
