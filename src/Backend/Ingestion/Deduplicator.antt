-- ===== src/Backend/Ingestion/Deduplicator.antt =====
-- backend/ingestion/deduplicator.py: `StatementDeduplicator`.
pub mod Ledger
use buy_or_wait_ai_advisor.Common.{
  Bool, Date, List, Option, Result, String, [], append, contains, err, false, head_of,
  if◌then◌else◌, lower, multiple_results, nat_eq, ok, pair_eq, select, string_eq, strip, true, ◌&&◌,
  ◌==◌, ◌∷◌,
}
use buy_or_wait_ai_advisor.Backend.Ingestion.Models.{
  Amount, ImportBatch, ImportId, Platform, Session, Transaction, is_filled, text_or,
}

abbrev pub account_text : Option ImportId → String
account_text account_id = if is_filled account_id then text_or "" account_id else "no_acc"

-- The text that is hashed, its parts between colons.
unfoldable pub raw_key :
    Platform → ImportId → Option ImportId → Date → Amount → String → Option String → String
unfolding strip lower
raw_key lib user_id account_id txn_date amount normalized_description external_id =
    let given = strip (text_or "" external_id) in
    let desc_str = strip (lower normalized_description) in
    if given == ""
    then append user_id (
        append ":" (
          append (account_text account_id) (
            append ":" (
              append (lib.isoformat txn_date)
                (append ":" (append (lib.four_places amount) (append ":" desc_str)))))))
    else append user_id (append ":" given)

unfoldable pub compute_transaction_hash :
    Platform → ImportId → Option ImportId → Date → Amount → String → Option String → String
unfolding raw_key
compute_transaction_hash lib user_id account_id txn_date amount normalized_description external_id =
    lib.sha256 (raw_key lib user_id account_id txn_date amount normalized_description external_id)

-- The first batch that the query finds, if there is one.
unfoldable pub is_duplicate_file : Session → ImportId → String → Option ImportBatch
is_duplicate_file session user_id content_hash = head_of (
    select
      (λ b.
        b.user_id == user_id
        && (b.content_hash == content_hash
            && contains b.upload_status ("committed" ∷ "verified" ∷ "parsed" ∷ [])))
      session.batches)

-- The transactions of the user with the hash.
abbrev pub has_hash : ImportId → String → Transaction → Bool
has_hash user_id dedup_hash t = t.user_id == user_id && t.dedup_hash == dedup_hash

-- `scalar_one_or_none() is not None`, which raises where there are several.
abbrev pub one_or_none : List Transaction → Result Bool
one_or_none [] = ok false
one_or_none (t ∷ []) = ok true
one_or_none (t ∷ u ∷ ts) = err multiple_results

unfoldable pub is_duplicate_transaction : List Transaction → ImportId → String → Result Bool
is_duplicate_transaction transactions user_id dedup_hash =
    one_or_none (select (has_hash user_id dedup_hash) transactions)
