-- ===== src/Backend/Ingestion/Service/Imports.antt =====
-- From an upload to the ledger: `stage_and_preview_statement` and `commit_statement_batch` of
-- backend/ingestion/service.py, one after the other.
use mathlib.Core.Path.{subst}
use buy_or_wait_ai_advisor.Common.{
  >>=-eq-ok, >>=-ok, All, AllDistinct, Bool-cases, Date, List, Option, Result, String, [], ap,
  arith, false, inl, inr, length, length-map, map, none, ok, ok-injective, refl, select, some,
  string_eq, sym, ℕ, ◌++◌, ◌+◌, ◌↔◌, ◌∙◌, ◌∷◌, ◌≡◌,
}
use buy_or_wait_ai_advisor.Backend.Ingestion.Models.{
  ImportId, ImportPreview, NormalizedTransaction, ParsedRow, Platform, Session, VerificationStatus,
  ambiguous, duplicate, rejected,
}
use buy_or_wait_ai_advisor.Backend.Ingestion.Security.{sanitize_filename, validate_file_content}
use buy_or_wait_ai_advisor.Backend.Ingestion.Rows.{Import, Staging, empty_staging, stage_rows}
use buy_or_wait_ai_advisor.Backend.Ingestion.Rows.Counts.{
  IsTally, count_of, stage_rows-IsTally, stage_rows-length,
}
use buy_or_wait_ai_advisor.Backend.Ingestion.Service.{
  Parsed, account_names, audit_of, commit_items, commit_statement_batch, committable,
  committed_batch, find_batch, preview_of, refuse_duplicate, requires_review,
  stage_and_preview_statement, staged_batch, transaction_of, with_convention,
}
use buy_or_wait_ai_advisor.Backend.Ingestion.Deduplicator.{is_duplicate_file}
use buy_or_wait_ai_advisor.Backend.Ingestion.Rows.Hashes.{
  IsClean, IsImported, is_accepted, stage_rows-IsClean,
}
use buy_or_wait_ai_advisor.Backend.Ingestion.Deduplicator.Ledger.{
  IsSound, is_duplicate_transaction-fresh,
}
use buy_or_wait_ai_advisor.Backend.Ingestion.Service.Commit.{
  can_commit-other, can_commit-own, commit_statement_batch-IsSound,
}
use buy_or_wait_ai_advisor.Backend.Ingestion.Service.Batches.{find_batch-append_one}

-- The preview agrees with the rows that go with it: the four counts are those of the rows, they add up to
-- the rows of the file, and the batch is verified exactly when every row is accepted.
abbrev pub IsPreview : ImportPreview → List NormalizedTransaction → Type 0
IsPreview preview txns =
    (preview.accepted_rows ≡ count_of VerificationStatus.verified txns)
    × (preview.ambiguous_rows ≡ count_of ambiguous txns)
    × (preview.rejected_rows ≡ count_of rejected txns)
    × (preview.duplicate_rows ≡ count_of duplicate txns)
    × (preview.accepted_rows + preview.ambiguous_rows + preview.rejected_rows
          + preview.duplicate_rows
        ≡ preview.total_rows)
    × (length txns ≡ preview.total_rows)
    × ((preview.requires_user_review ≡ false) ↔ (preview.accepted_rows ≡ preview.total_rows))

requires_review_iff :
    (st : Staging) (total : ℕ)
    → st.accepted_count + st.ambiguous_count + st.rejected_count + st.duplicate_count ≡ total
    → (requires_review st ≡ false) ↔ (st.accepted_count ≡ total)
unfolding requires_review
requires_review_iff st total sum = (λ h. ground arith, λ h. ground arith)

module _ (lib : Platform) (today : Date) (batch_id : ImportId) (fresh_name : String)
    (parse : List ℕ → Parsed) (session : Session) (user_id : ImportId) (filename : String)
    (content : List ℕ) (account_id : Option ImportId) (sign_convention : String) where
  abbrev clean_name : String
  clean_name = sanitize_filename lib fresh_name filename

  abbrev job : Import
  job = record {
    user_id = user_id;
    account_id = account_id;
    batch_id = batch_id;
    dialect = with_convention sign_convention (parse content).0;
    user_accs = account_names user_id session.accounts;
    ledger = session.transactions;
    today = today;
  }

  abbrev rows : List ParsedRow
  rows = (parse content).1

  abbrev file_hash : String
  file_hash = lib.sha256_bytes content

  abbrev staged : Result (Session × ImportPreview × List NormalizedTransaction)
  staged =
      stage_and_preview_statement lib today batch_id fresh_name parse session user_id filename
        content account_id sign_convention

  abbrev outcome : Staging → Session × ImportPreview × List NormalizedTransaction
  outcome st =
      let errors = (parse content).2 in
      let total = length rows in
      (
        record session {
          batches =
              session.batches
              ++ staged_batch batch_id user_id clean_name file_hash total errors st ∷ [];
        },
        preview_of batch_id user_id clean_name file_hash total errors job.dialect st,
        st.normalized_txns,
      )

  -- What an upload that was staged went through.
  staged-outcome :
      {result : Session × ImportPreview × List NormalizedTransaction}
      → staged ≡ ok result
      → (st : Staging) × (stage_rows lib job empty_staging rows ≡ ok st) × (outcome st ≡ result)
  unfolding stage_and_preview_statement
  staged-outcome e =
      let (valid, _, e₁) = >>=-eq-ok (validate_file_content lib clean_name content) _ e in
      let (new, _, e₂) =
        >>=-eq-ok (refuse_duplicate (is_duplicate_file session user_id file_hash)) _ e₁ in
      let (st, looped, e₃) = >>=-eq-ok (stage_rows lib job empty_staging rows) _ e₂ in
      (st, looped, ok-injective e₃)

  -- A staged upload has touched no ledger, and its preview agrees with its rows.
  pub stage_and_preview_statement-IsPreview :
      {session' : Session} {preview : ImportPreview} {txns : List NormalizedTransaction}
      → stage_and_preview_statement lib today batch_id fresh_name parse session user_id filename
          content account_id sign_convention
        ≡ ok (session', preview, txns)
      → (session'.transactions ≡ session.transactions) × IsPreview preview txns
  stage_and_preview_statement-IsPreview e =
      let (st, looped, made) = staged-outcome e in
      let (a, b, c, d, sum) = stage_rows-IsTally lib job rows looped in
      let all_rows = stage_rows-length lib job empty_staging rows looped in
      let total : st.accepted_count + st.ambiguous_count + st.rejected_count + st.duplicate_count
          ≡ length rows =
        omega (arith, sum, all_rows) in
      subst (λ r. (r.0.transactions ≡ session.transactions) × IsPreview r.1 r.2) made
        (
          refl,
          (a, b, c, d, total, omega (arith, all_rows), requires_review_iff st (length rows) total),
        )

  -- The batch as it stands in the tables after staging.
  find_batch-staged :
      (st : Staging)
      → find_batch batch_id session.batches ≡ none
      → find_batch batch_id (outcome st).0.batches
        ≡ some
            (staged_batch batch_id user_id clean_name file_hash (length rows) (parse content).2 st)
  unfolding staged_batch
  find_batch-staged st new =
      find_batch-append_one batch_id session.batches
        (staged_batch batch_id user_id clean_name file_hash (length rows) (parse content).2 st) new
        ((string_eq.beq_iff batch_id batch_id).1 refl)

  staged_batch-committable :
      (st : Staging)
      → let b =
          staged_batch batch_id user_id clean_name file_hash (length rows) (parse content).2 st in
        committable user_id (some b) ≡ ok b
  unfolding staged_batch committable
  staged_batch-committable st = elim (Bool-cases (requires_review st)) [
    | inl review ↦ rw ((string_eq.beq_iff user_id user_id).1 refl, review) refl
    | inr clean ↦ rw ((string_eq.beq_iff user_id user_id).1 refl, clean) refl
  ]

  commit_items-imported :
      (txns : List NormalizedTransaction)
      → All (IsImported job) (select is_accepted txns)
      → commit_items session.transactions user_id batch_id false txns
        ≡ ok (map (transaction_of user_id batch_id) (select is_accepted txns))
  unfolding commit_items
  commit_items-imported [] all = refl
  commit_items-imported (item ∷ txns) all = elim (Bool-cases (is_accepted item)) [
    | inl accepted ↦
        let (first, others) : IsImported job item × All (IsImported job) (select is_accepted txns) =
          rw accepted at all in
        let found =
          is_duplicate_transaction-fresh session.transactions user_id item.dedup_hash first.2 in
        let may =
          can_commit-own session.transactions user_id batch_id item first.0 first.1 accepted in
        rw (may, accepted, found, commit_items-imported txns others) refl
    | inr other ↦
        let may_not = can_commit-other session.transactions user_id batch_id item other in
        rw (may_not, other) (commit_items-imported txns (rw other at all))
  ]

  -- What an import leaves behind.
  abbrev IsImportedTo : Session → ImportPreview → List NormalizedTransaction → Type 0
  IsImportedTo session₁ preview txns =
      (session₂ : Session) × (commit_statement_batch session₁ user_id batch_id txns false
        ≡ ok (session₂, preview.accepted_rows))
      × (session₂.transactions
          ≡ session.transactions ++ map (transaction_of user_id batch_id) (select is_accepted txns))
      × (IsSound session.transactions → IsSound session₂.transactions)

  -- The tables after the commit.
  abbrev imported_session : Staging → Session
  imported_session st =
      let txs = map (transaction_of user_id batch_id) (select is_accepted st.normalized_txns) in
      let first = (outcome st).0 in
      let batch =
        staged_batch batch_id user_id clean_name file_hash (length rows) (parse content).2 st in
      record first {
        batches = map (committed_batch batch_id (length txs)) first.batches;
        transactions = first.transactions ++ txs;
        audit_events = first.audit_events ++ audit_of user_id batch (length txs) ∷ [];
      }

  -- The commit after a run of the loop.
  commit-outcome :
      (st : Staging)
      → find_batch batch_id session.batches ≡ none
      → IsClean job st
      → IsTally st
      → let added = map (transaction_of user_id batch_id) (select is_accepted st.normalized_txns) in
        (session₂ : Session) × (commit_statement_batch
            (outcome st).0
            user_id
            batch_id
            st.normalized_txns
            false
          ≡ ok (session₂, st.accepted_count))
        × (session₂.transactions ≡ session.transactions ++ added)
  unfolding commit_statement_batch
  commit-outcome st new (seen, distinct, imported) tally =
      let accepted = select is_accepted st.normalized_txns in
      let found =
        ap (committable user_id) (find_batch-staged st new) ∙ staged_batch-committable st in
      let count = length-map (transaction_of user_id batch_id) accepted ∙ sym tally.0 in
      (
        imported_session st,
        >>=-ok (committable user_id (find_batch batch_id (outcome st).0.batches)) _ found
            ∙ >>=-ok (commit_items session.transactions user_id batch_id false st.normalized_txns) _
                (commit_items-imported st.normalized_txns imported)
            ∙ ap (λ n. ok (imported_session st, n)) count,
        refl,
      )

  -- A staged upload, committed at once under a new batch identifier, is committed: exactly its accepted
  -- rows are appended to the ledger, as many as the preview says, and a ledger in which no user has two
  -- transactions with one hash stays one.
  pub commit-stage_and_preview_statement :
      {session₁ : Session} {preview : ImportPreview} {txns : List NormalizedTransaction}
      → find_batch batch_id session.batches ≡ none
      → stage_and_preview_statement lib today batch_id fresh_name parse session user_id filename
          content account_id sign_convention
        ≡ ok (session₁, preview, txns)
      → IsImportedTo session₁ preview txns
  commit-stage_and_preview_statement new e =
      let (st, looped, made) = staged-outcome e in
      let (seen, distinct, imported) = stage_rows-IsClean lib job rows looped in
      let tally = stage_rows-IsTally lib job rows looped in
      let (session₂, committed_now, appended) =
        commit-outcome st new (seen, distinct, imported) tally in
      let apart = subst AllDistinct seen distinct in
      subst (λ r. IsImportedTo r.0 r.1 r.2) made
        (
          session₂,
          committed_now,
          appended,
          λ sound.
              (commit_statement_batch-IsSound (outcome st).0 user_id batch_id st.normalized_txns
                sound apart committed_now).0,
        )
