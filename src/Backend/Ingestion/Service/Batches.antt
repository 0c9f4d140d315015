-- ===== src/Backend/Ingestion/Service/Batches.antt =====
-- The state of a batch: `commit_statement_batch` of backend/ingestion/service.py.
use mathlib.Core.Option.{some-injective}
use buy_or_wait_ai_advisor.Common.{
  >>=-eq-ok, Bool, Bool-cases, List, Option, [], ap, err, false, head_of, if◌then◌else◌, inl, inr,
  length, map, nat_eq, none, ok, ok-injective, pair_eq, refl, some, string_eq, sym, tenant_access,
  true, value_error, ℕ, ◌++◌, ◌==◌, ◌∙◌, ◌∷◌, ◌≡◌,
}
use buy_or_wait_ai_advisor.Backend.Ingestion.Models.{
  ImportBatch, ImportId, NormalizedTransaction, Session,
}
use buy_or_wait_ai_advisor.Backend.Ingestion.Service.{
  commit_items, commit_statement_batch, committable, committed_batch, find_batch,
}

pub find_batch-IsIn :
    (batch_id : ImportId) (batches : List ImportBatch) {batch : ImportBatch}
    → find_batch batch_id batches ≡ some batch
    → batch.id ≡ batch_id
unfolding find_batch head_of
find_batch-IsIn batch_id [] e = cc
find_batch-IsIn batch_id (b ∷ batches) e = elim (Bool-cases (b.id == batch_id)) [
  | inl same ↦
      let first = some-injective _ _ (rw same at e) in
      sym (ap (λ z. z.id) first) ∙ (string_eq.beq_iff b.id batch_id).0 same
  | inr other ↦ find_batch-IsIn batch_id batches (rw other at e)
]

find_batch-here :
    (batch_id : ImportId) (b : ImportBatch) (batches : List ImportBatch)
    → (b.id == batch_id) ≡ true
    → find_batch batch_id (b ∷ batches) ≡ some b
unfolding find_batch head_of
find_batch-here batch_id b batches same = rw same refl

find_batch-there :
    (batch_id : ImportId) (b : ImportBatch) (batches : List ImportBatch)
    → (b.id == batch_id) ≡ false
    → find_batch batch_id (b ∷ batches) ≡ find_batch batch_id batches
unfolding find_batch
find_batch-there batch_id b batches other = rw other refl

pub find_batch-append_one :
    (batch_id : ImportId) (batches : List ImportBatch) (b : ImportBatch)
    → find_batch batch_id batches ≡ none
    → (b.id == batch_id) ≡ true
    → find_batch batch_id (batches ++ b ∷ []) ≡ some b
find_batch-append_one batch_id [] b new same = find_batch-here batch_id b [] same
find_batch-append_one batch_id (c ∷ batches) b new same = elim (Bool-cases (c.id == batch_id)) [
  | inl there ↦ let clash = sym new ∙ find_batch-here batch_id c batches there in cc
  | inr other ↦
      find_batch-there batch_id c (batches ++ b ∷ []) other
      ∙ find_batch-append_one batch_id batches b
          (sym (find_batch-there batch_id c batches other) ∙ new) same
]

committed_batch-id :
    (batch_id : ImportId) (imported : ℕ) (b : ImportBatch)
    → (committed_batch batch_id imported b).id ≡ b.id
committed_batch-id batch_id imported b = elim (Bool-cases (b.id == batch_id)) [
  | inl same ↦ rw same refl
  | inr other ↦ rw other refl
]

find_batch-committed :
    (batch_id : ImportId) (imported : ℕ) (batches : List ImportBatch) {batch : ImportBatch}
    → find_batch batch_id batches ≡ some batch
    → find_batch batch_id (map (committed_batch batch_id imported) batches)
      ≡ some (committed_batch batch_id imported batch)
unfolding find_batch head_of
find_batch-committed batch_id imported [] e = cc
find_batch-committed batch_id imported (b ∷ batches) e = elim (Bool-cases (b.id == batch_id)) [
  | inl same ↦
      let first = some-injective _ _ (rw same at e) in
      let moved = ap (λ z. some (committed_batch batch_id imported z)) first in
      find_batch-here batch_id _ _
        (ap (λ z. z == batch_id) (committed_batch-id batch_id imported b) ∙ same)
      ∙ moved
  | inr other ↦
      find_batch-there batch_id _ _
        (ap (λ z. z == batch_id) (committed_batch-id batch_id imported b) ∙ other)
      ∙ find_batch-committed batch_id imported batches
          (sym (find_batch-there batch_id b batches other) ∙ e)
]

committable-ok :
    (user_id : ImportId) (found : Option ImportBatch) {batch : ImportBatch}
    → committable user_id found ≡ ok batch
    → (found ≡ some batch) × (batch.user_id ≡ user_id)
unfolding committable
committable-ok user_id none e = cc
committable-ok user_id (some b) {batch} e = elim (Bool-cases (b.user_id == user_id)) [
  | inr other ↦ let raised = rw other at e in cc
  | inl own ↦
      let rest = rw own at e in
      elim (Bool-cases (b.upload_status == "committed")) [
        | inl again ↦ let raised = rw again at rest in cc
        | inr open_still ↦
            let same = ok-injective (rw open_still at rest) in
            (
              ap some same,
              sym (ap (λ z. z.user_id) same) ∙ (string_eq.beq_iff b.user_id user_id).0 own,
            )
      ]
]

-- The outcome of a second commit.
abbrev pub IsClosed : Session → ImportId → ImportId → Type 0
IsClosed session user_id batch_id =
    (v : ImportId) (items : List NormalizedTransaction) (override_ambiguous : Bool)
    → commit_statement_batch session v batch_id items override_ambiguous
      ≡ err (if user_id == v then value_error else tenant_access)

closed :
    (session : Session) (user_id batch_id : ImportId) (b : ImportBatch)
    → find_batch batch_id session.batches ≡ some b
    → b.user_id ≡ user_id
    → b.upload_status ≡ "committed"
    → IsClosed session user_id batch_id
unfolding commit_statement_batch committable
closed session user_id batch_id b found own done v items override_ambiguous =
    elim (Bool-cases (user_id == v)) [
      | inl same ↦ rw (found, own, done, same) refl
      | inr other ↦ rw (found, own, other) refl
    ]

-- A batch is committed once: after a commit that returned, every further commit of the batch is refused,
-- with `ValueError` to its owner and with `TenantAccessError` to any other user, whatever is to be
-- committed.
pub commit_statement_batch-once :
    (session : Session) (user_id batch_id : ImportId) (items : List NormalizedTransaction)
    (override_ambiguous : Bool) {session' : Session} {count : ℕ}
    → commit_statement_batch session user_id batch_id items override_ambiguous
      ≡ ok (session', count)
    → IsClosed session' user_id batch_id
unfolding commit_statement_batch
commit_statement_batch-once session user_id batch_id items override_ambiguous {session'} {count} e =
    let (batch, checked, rest) =
      >>=-eq-ok (committable user_id (find_batch batch_id session.batches)) _ e in
    let (txs, collected, made) =
      >>=-eq-ok (commit_items session.transactions user_id batch_id override_ambiguous items) _
        rest in
    let (found, own) = committable-ok user_id (find_batch batch_id session.batches) checked in
    let result = ok-injective made in
    let imported = length txs in
    let same =
      (string_eq.beq_iff batch.id batch_id).1 (find_batch-IsIn batch_id session.batches found) in
    let b = committed_batch batch_id imported batch in
    closed session' user_id batch_id b
      (sym (ap (λ r. find_batch batch_id r.0.batches) result)
        ∙ find_batch-committed batch_id imported session.batches found)
      (rw same own) (rw same refl)
