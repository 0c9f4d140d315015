-- ===== src/Backend/Ingestion/Rows.antt =====
-- The loop over the rows in `stage_and_preview_statement` of backend/ingestion/service.py.
pub mod Steps
pub mod Counts
pub mod Hashes
use buy_or_wait_ai_advisor.Common.{
  Bool, Date, Dict, List, Option, Result, String, [], contains, false, if◌then◌else◌, insert,
  lookup_or, nat_eq, none, ok, pair_eq, some, string_eq, true, zero_money, ℕ, ◌++◌, ◌+◌, ◌==◌,
  ◌>>=◌, ◌∷◌,
}
use buy_or_wait_ai_advisor.Backend.Ingestion.Models.{
  Amount, DialectInfo, ImportId, NormalizedTransaction, ParsedRow, Platform, Transaction,
  VerificationStatus, ambiguous, duplicate, is_filled, number, rejected, text_or,
}
use buy_or_wait_ai_advisor.Backend.Ingestion.Normalizer.{
  Resolved, normalize_description, parse_date, resolve_amount_and_direction,
}
use buy_or_wait_ai_advisor.Backend.Ingestion.Categorizer.{categorize, is_internal_transfer}
use buy_or_wait_ai_advisor.Backend.Ingestion.Deduplicator.{
  compute_transaction_hash, is_duplicate_transaction,
}

-- What all rows of a statement share.
pub record Import : Type 0 where
  pub user_id : ImportId
  pub account_id : Option ImportId
  pub batch_id : ImportId
  pub dialect : DialectInfo
  pub user_accs : List String
  pub ledger : List Transaction
  pub today : Date

-- The variables of the loop over the rows; the set of hashes is a list.
pub record Staging : Type 0 where
  pub normalized_txns : List NormalizedTransaction
  pub seen_in_batch_hashes : List String
  pub accepted_count : ℕ
  pub ambiguous_count : ℕ
  pub rejected_count : ℕ
  pub duplicate_count : ℕ
  pub category_counts : Dict String ℕ

abbrev pub empty_staging : Staging
empty_staging = record {
  normalized_txns = [];
  seen_in_batch_hashes = [];
  accepted_count = 0;
  ambiguous_count = 0;
  rejected_count = 0;
  duplicate_count = 0;
  category_counts = [];
}

-- A row that is turned away: its date, its amount, and the reason.
unfoldable pub rejected_row :
    Platform → Import → ParsedRow → Date → Option String → NormalizedTransaction
unfolding normalize_description
rejected_row lib job row d reason = record {
  user_id = job.user_id;
  account_id = job.account_id;
  import_batch_id = job.batch_id;
  line_number = row.line_number;
  transaction_date = d;
  amount = number zero_money;
  direction = "debit";
  currency = text_or "USD" row.currency_str;
  normalized_description = normalize_description lib row.description_str;
  original_description = text_or "" row.description_str;
  category = "other";
  category_reason = "unparsed";
  is_internal_transfer = false;
  dedup_hash = "";
  verification_status = rejected;
  confidence_state = "needs_review";
  rejection_reason = reason;
  ambiguity_reason = none;
  source_provenance = "statement_import";
  raw_row_data = row.raw_fields;
  lifecycle_status = "settled";
  cash_type = "immediate_debit";
  external_id = none;
}

abbrev pub or_zero : Option Amount → Amount
or_zero none = number zero_money
or_zero (some amount) = amount

unfoldable pub ambiguous_row :
    Platform
    → Import
    → ParsedRow
    → Date
    → Option Amount
    → String
    → Option String
    → NormalizedTransaction
unfolding rejected_row
ambiguous_row lib job row d amount direction reason = record (rejected_row lib job row d none) {
  amount = or_zero amount;
  direction = direction;
  category_reason = "ambiguous_amount";
  verification_status = ambiguous;
  ambiguity_reason = reason;
}

abbrev pub cash_type_of : Bool → String → String
cash_type_of is_internal direction =
    if is_internal
    then "non_cash"
    else if direction == "debit"
    then "immediate_debit"
    else "settled_income"

-- The row as it is when its status is known.
unfoldable pub accepted_row :
    Platform → Import → ParsedRow → Date → Amount → String → Bool → NormalizedTransaction
unfolding normalize_description is_internal_transfer categorize compute_transaction_hash
accepted_row lib job row d amount direction is_dup =
    let norm_desc = normalize_description lib row.description_str in
    let is_internal = is_internal_transfer lib norm_desc job.user_accs in
    let (category, cat_reason) =
      if is_internal
      then ("transfer", "internal_transfer_rule")
      else categorize lib norm_desc row.category_str in
    record {
      user_id = job.user_id;
      account_id = job.account_id;
      import_batch_id = job.batch_id;
      line_number = row.line_number;
      transaction_date = d;
      amount = amount;
      direction = direction;
      currency = text_or "USD" row.currency_str;
      normalized_description = norm_desc;
      original_description = text_or "" row.description_str;
      category = category;
      category_reason = cat_reason;
      is_internal_transfer = is_internal;
      dedup_hash = compute_transaction_hash lib job.user_id job.account_id d amount norm_desc none;
      verification_status = if is_dup then duplicate else VerificationStatus.verified;
      confidence_state = if is_dup then "needs_review" else "verified";
      rejection_reason = none;
      ambiguity_reason = none;
      source_provenance = "statement_import";
      raw_row_data = row.raw_fields;
      lifecycle_status = "settled";
      cash_type = cash_type_of is_internal direction;
      external_id = none;
    }

unfoldable pub reject : NormalizedTransaction → Staging → Staging
reject norm st = record st {
  normalized_txns = st.normalized_txns ++ norm ∷ [];
  rejected_count = st.rejected_count + 1;
}

unfoldable pub hold : NormalizedTransaction → Staging → Staging
hold norm st = record st {
  normalized_txns = st.normalized_txns ++ norm ∷ [];
  ambiguous_count = st.ambiguous_count + 1;
}

-- `category_counts[category] += 1`
abbrev pub count_category : String → Dict String ℕ → Dict String ℕ
count_category category counts = insert category (lookup_or category 0 counts + 1) counts

unfoldable pub accept : NormalizedTransaction → Bool → Staging → Staging
accept norm is_dup st =
    if is_dup
    then record st {
      normalized_txns = st.normalized_txns ++ norm ∷ [];
      duplicate_count = st.duplicate_count + 1;
    }
    else record st {
      normalized_txns = st.normalized_txns ++ norm ∷ [];
      seen_in_batch_hashes = st.seen_in_batch_hashes ++ norm.dedup_hash ∷ [];
      accepted_count = st.accepted_count + 1;
      category_counts = count_category norm.category st.category_counts;
    }

-- `tx_hash in seen_in_batch_hashes or is_duplicate_transaction(...)`
unfoldable pub is_known : Import → Staging → String → Result Bool
unfolding is_duplicate_transaction
is_known job st tx_hash =
    if contains tx_hash st.seen_in_batch_hashes
    then ok true
    else is_duplicate_transaction job.ledger job.user_id tx_hash

unfoldable pub stage_amount :
    Platform → Import → Staging → ParsedRow → Date → Amount → String → Result Staging
unfolding accepted_row is_known accept
stage_amount lib job st row d amount direction = do
  let tx_hash = (accepted_row lib job row d amount direction false).dedup_hash
  is_dup ← is_known job st tx_hash
  ok (accept (accepted_row lib job row d amount direction is_dup) is_dup st)

-- By the status of the amount.
unfoldable pub stage_resolved :
    Platform → Import → Staging → ParsedRow → Date → Resolved → Result Staging
unfolding ambiguous_row rejected_row hold reject stage_amount
stage_resolved lib job st row d (amount, direction, ambiguous, reason) =
    ok (hold (ambiguous_row lib job row d amount direction reason) st)
stage_resolved lib job st row d (amount, direction, rejected, reason) =
    ok (reject (rejected_row lib job row d reason) st)
stage_resolved lib job st row d (none, direction, VerificationStatus.verified, reason) =
    ok (reject (rejected_row lib job row d reason) st)
stage_resolved lib job st row d (none, direction, duplicate, reason) =
    ok (reject (rejected_row lib job row d reason) st)
stage_resolved lib job st row d (some amount, direction, VerificationStatus.verified, reason) =
    stage_amount lib job st row d amount direction
stage_resolved lib job st row d (some amount, direction, duplicate, reason) =
    stage_amount lib job st row d amount direction

-- By the date: `if date_err or not parsed_date`.
unfoldable pub stage_dated :
    Platform → Import → Staging → ParsedRow → Option Date × Option String → Result Staging
unfolding rejected_row reject stage_resolved resolve_amount_and_direction
stage_dated lib job st row (none, date_err) =
    ok (reject (rejected_row lib job row job.today date_err) st)
stage_dated lib job st row (some d, date_err) =
    let later =
      resolve_amount_and_direction lib row job.dialect >>= stage_resolved lib job st row d in
    if is_filled date_err
    then ok (reject (rejected_row lib job row job.today date_err) st)
    else later

unfoldable pub stage_rows : Platform → Import → Staging → List ParsedRow → Result Staging
unfolding stage_dated parse_date
stage_rows lib job st [] = ok st
stage_rows lib job st (row ∷ rows) = do
  st' ← stage_dated lib job st row (parse_date lib row.date_str job.dialect.date_format)
  stage_rows lib job st' rows
