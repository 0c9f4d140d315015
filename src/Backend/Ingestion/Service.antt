-- ===== src/Backend/Ingestion/Service.antt =====
-- backend/ingestion/service.py: `IngestionService`. The statement parser is an argument, `parse` in the
-- code, and so are the identifier of the new batch and today's date; the raw file is not stored.
pub mod Commit
pub mod Imports
pub mod Batches
use buy_or_wait_ai_advisor.Common.{
  Bool, Date, List, Option, Result, String, [], duplicate_file, err, head_of, if◌then◌else◌, length,
  ltb, map, nat_eq, none, not, ok, pair_eq, select, some, string_eq, take, tenant_access, true,
  value_error, ℕ, ◌&&◌, ◌++◌, ◌==◌, ◌>>=◌, ◌||◌, ◌∷◌,
}
use buy_or_wait_ai_advisor.Backend.Ingestion.Models.{
  AccountNames, AuditEvent, DialectInfo, ImportBatch, ImportId, ImportPreview, IngestionState,
  NormalizedTransaction, ParsedRow, Platform, Session, Transaction, VerificationStatus, ambiguous,
  committed, is_filled, is_status, needs_review, state_value, text_or,
}
use buy_or_wait_ai_advisor.Backend.Ingestion.Deduplicator.{
  is_duplicate_file, is_duplicate_transaction,
}
use buy_or_wait_ai_advisor.Backend.Ingestion.Security.{sanitize_filename, validate_file_content}
use buy_or_wait_ai_advisor.Backend.Ingestion.Rows.{Import, Staging, empty_staging, stage_rows}

-- `[str(val) for row in user_acc_rows for val in row if val]`
unfoldable pub account_names : ImportId → List AccountNames → List String
account_names user_id [] = []
account_names user_id (a ∷ accounts) =
    let rest = account_names user_id accounts in
    if a.user_id == user_id
    then map (text_or "")
        (select is_filled (a.institution_name ∷ a.account_type ∷ a.account_mask ∷ []))
      ++ rest
    else rest

unfoldable pub requires_review : Staging → Bool
requires_review st = ltb 0 st.ambiguous_count || ltb 0 st.rejected_count || ltb 0 st.duplicate_count

abbrev pub final_state : Staging → IngestionState
final_state st = if requires_review st then needs_review else IngestionState.verified

-- `"parsed" if not parse_errors else "parsed_with_errors"`
abbrev pub parsing_status_of : List String → String
parsing_status_of [] = "parsed"
parsing_status_of (e ∷ errors) = "parsed_with_errors"

-- The batch as it is committed.
unfoldable pub staged_batch :
    ImportId → ImportId → String → String → ℕ → List String → Staging → ImportBatch
unfolding requires_review
staged_batch batch_id user_id clean_name file_hash total parse_errors st = record {
  id = batch_id;
  user_id = user_id;
  filename = clean_name;
  content_hash = file_hash;
  source_type = "csv_statement";
  upload_status = state_value (final_state st);
  parsing_status = parsing_status_of parse_errors;
  verification_status = if requires_review st then "unverified" else "verified";
  total_rows = total;
  imported_rows = 0;
}

abbrev pub preview_of :
    ImportId → ImportId → String → String → ℕ → List String → DialectInfo → Staging → ImportPreview
preview_of batch_id user_id clean_name file_hash total parse_errors dialect st = record {
  batch_id = batch_id;
  user_id = user_id;
  filename = clean_name;
  content_hash = file_hash;
  state = final_state st;
  total_rows = total;
  accepted_rows = st.accepted_count;
  ambiguous_rows = st.ambiguous_count;
  rejected_rows = st.rejected_count;
  duplicate_rows = st.duplicate_count;
  detected_dialect = dialect;
  category_distribution = st.category_counts;
  sample_transactions = take 10 st.normalized_txns;
  validation_errors = parse_errors;
  requires_user_review = requires_review st;
}

-- `if existing_batch: raise DuplicateFileError`
abbrev pub refuse_duplicate : Option ImportBatch → Result Bool
refuse_duplicate none = ok true
refuse_duplicate (some batch) = err duplicate_file

-- `if sign_convention != "standard": dialect.sign_convention = sign_convention`
abbrev pub with_convention : String → DialectInfo → DialectInfo
with_convention sign_convention dialect =
    if sign_convention == "standard"
    then dialect
    else record dialect { sign_convention = sign_convention }

-- What the parser returns: the dialect, the rows and the errors.
abbrev pub Parsed : Type 0
Parsed = DialectInfo × List ParsedRow × List String

unfoldable pub stage_and_preview_statement :
    Platform
    → Date
    → ImportId
    → String
    → (List ℕ → Parsed)
    → Session
    → ImportId
    → String
    → List ℕ
    → Option ImportId
    → String
    → Result (Session × ImportPreview × List NormalizedTransaction)
unfolding sanitize_filename validate_file_content is_duplicate_file account_names stage_rows
    staged_batch
stage_and_preview_statement lib today batch_id fresh_name parse session user_id filename content
      account_id sign_convention =
    do
      let clean_name = sanitize_filename lib fresh_name filename
      valid ← validate_file_content lib clean_name content
      let file_hash = lib.sha256_bytes content
      new ← refuse_duplicate (is_duplicate_file session user_id file_hash)
      let (detected, parsed_rows, parse_errors) = parse content
      let dialect = with_convention sign_convention detected
      let total = length parsed_rows
      let job : Import = record {
        user_id = user_id;
        account_id = account_id;
        batch_id = batch_id;
        dialect = dialect;
        user_accs = account_names user_id session.accounts;
        ledger = session.transactions;
        today = today;
      }
      st ← stage_rows lib job empty_staging parsed_rows
      ok (
        record session {
          batches =
              session.batches
              ++ staged_batch batch_id user_id clean_name file_hash total parse_errors st ∷ [];
        },
        preview_of batch_id user_id clean_name file_hash total parse_errors dialect st,
        st.normalized_txns,
      )

-- Whether a transaction is one of the batch, and may be committed.
unfoldable pub can_commit : ImportId → ImportId → Bool → NormalizedTransaction → Bool
can_commit user_id batch_id override_ambiguous item =
    item.import_batch_id == batch_id
    && item.user_id == user_id
    && (is_status item.verification_status VerificationStatus.verified
        || is_status item.verification_status ambiguous && override_ambiguous)

unfoldable pub transaction_of : ImportId → ImportId → NormalizedTransaction → Transaction
transaction_of user_id batch_id item = record {
  user_id = user_id;
  account_id = item.account_id;
  import_batch_id = batch_id;
  external_transaction_id = item.external_id;
  dedup_hash = item.dedup_hash;
  transaction_date = item.transaction_date;
  amount = item.amount;
  currency = item.currency;
  amount_home = item.amount;
  direction = item.direction;
  normalized_description = item.normalized_description;
  original_description = item.original_description;
  category = item.category;
  lifecycle_status = item.lifecycle_status;
  cash_type = item.cash_type;
  flexibility = "fixed";
  source_provenance = item.source_provenance;
  confidence_state = item.confidence_state;
}

-- The loop that collects `to_commit`; the ledger does not change while it runs.
unfoldable pub commit_items :
    List Transaction
    → ImportId
    → ImportId
    → Bool
    → List NormalizedTransaction
    → Result (List Transaction)
unfolding can_commit is_duplicate_transaction transaction_of
commit_items ledger user_id batch_id override_ambiguous [] = ok []
commit_items ledger user_id batch_id override_ambiguous (item ∷ items) =
    let rest = commit_items ledger user_id batch_id override_ambiguous items in
    if can_commit user_id batch_id override_ambiguous item
    then (do
      is_dup ← is_duplicate_transaction ledger user_id item.dedup_hash
      to_commit ← rest
      ok (if is_dup then to_commit else transaction_of user_id batch_id item ∷ to_commit))
    else rest

-- The batch with the id; the id is the primary key.
unfoldable pub find_batch : ImportId → List ImportBatch → Option ImportBatch
find_batch batch_id batches = head_of (select (λ b. b.id == batch_id) batches)

-- The checks in front of a commit.
unfoldable pub committable : ImportId → Option ImportBatch → Result ImportBatch
committable user_id none = err value_error
committable user_id (some batch) =
    if not (batch.user_id == user_id)
    then err tenant_access
    else if batch.upload_status == state_value committed
    then err value_error
    else ok batch

abbrev pub committed_batch : ImportId → ℕ → ImportBatch → ImportBatch
committed_batch batch_id imported b =
    if b.id == batch_id
    then record b {
      upload_status = state_value committed;
      verification_status = "verified";
      imported_rows = imported;
    }
    else b

abbrev pub audit_of : ImportId → ImportBatch → ℕ → AuditEvent
audit_of user_id batch committed_rows = record {
  user_id = user_id;
  event_type = "statement_batch_committed";
  actor_type = "user";
  actor_id = user_id;
  batch_id = batch.id;
  total_rows = batch.total_rows;
  committed_rows = committed_rows;
  filename = batch.filename;
  content_hash = batch.content_hash;
}

unfoldable pub commit_statement_batch :
    Session → ImportId → ImportId → List NormalizedTransaction → Bool → Result (Session × ℕ)
unfolding find_batch committable commit_items
commit_statement_batch session user_id batch_id normalized_transactions override_ambiguous = do
  batch ← committable user_id (find_batch batch_id session.batches)
  to_commit ←
      commit_items session.transactions user_id batch_id override_ambiguous normalized_transactions
  let count = length to_commit
  ok (
    record session {
      batches = map (committed_batch batch_id count) session.batches;
      transactions = session.transactions ++ to_commit;
      audit_events = session.audit_events ++ audit_of user_id batch count ∷ [];
    },
    count,
  )
