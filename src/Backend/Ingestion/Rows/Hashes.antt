-- ===== src/Backend/Ingestion/Rows/Hashes.antt =====
-- The hashes of a statement's accepted rows.
use mathlib.Core.Path.{subst}
use buy_or_wait_ai_advisor.Common.{
  All, All-append, AllDistinct, AllDistinct-append_one, Bool, Bool-cases, IsIn, List, String, [],
  ap, arith, contains, contains-IsIn, false, false≢true, if◌then◌else◌, inl, inr, map, nat_eq, ok,
  ok-injective, pair_eq, refl, select, string_eq, sym, true, ◌++◌, ◌∙◌, ◌∷◌, ◌≡◌,
}
use buy_or_wait_ai_advisor.Backend.Ingestion.Models.{
  NormalizedTransaction, ParsedRow, Platform, VerificationStatus, is_status,
}
use buy_or_wait_ai_advisor.Backend.Ingestion.Rows.{
  Import, Staging, accept, empty_staging, hold, is_known, reject, stage_rows,
}
use buy_or_wait_ai_advisor.Backend.Ingestion.Rows.Steps.{
  RowStep, accepts, holds, rejects, stage_rows-induction,
}
use buy_or_wait_ai_advisor.Backend.Ingestion.Deduplicator.Ledger.{
  IsFresh, is_duplicate_transaction-false,
}

abbrev pub is_accepted : NormalizedTransaction → Bool
is_accepted t = is_status t.verification_status VerificationStatus.verified

abbrev pub accepted_hashes : List NormalizedTransaction → List String
accepted_hashes txns = map NormalizedTransaction.dedup_hash (select is_accepted txns)

-- An accepted row of the import, with a hash that its user has not used.
abbrev pub IsImported : Import → NormalizedTransaction → Type 0
IsImported job t =
    (t.user_id ≡ job.user_id)
    × (t.import_batch_id ≡ job.batch_id)
    × IsFresh job.user_id t.dedup_hash job.ledger

abbrev pub IsClean : Import → Staging → Type 0
IsClean job st =
    (st.seen_in_batch_hashes ≡ accepted_hashes st.normalized_txns)
    × AllDistinct st.seen_in_batch_hashes
    × All (IsImported job) (select is_accepted st.normalized_txns)

select-append_one :
    (p : NormalizedTransaction → Bool) (txns : List NormalizedTransaction)
    (norm : NormalizedTransaction)
    → select p (txns ++ norm ∷ []) ≡ (if p norm then select p txns ++ norm ∷ [] else select p txns)
select-append_one p [] norm = refl
select-append_one p (t ∷ txns) norm = ground (arith, select-append_one p txns norm)

map-append_one :
    (txns : List NormalizedTransaction) (norm : NormalizedTransaction)
    → map NormalizedTransaction.dedup_hash (txns ++ norm ∷ [])
      ≡ map NormalizedTransaction.dedup_hash txns ++ norm.dedup_hash ∷ []
map-append_one [] norm = refl
map-append_one (t ∷ txns) norm = ap (λ hs. t.dedup_hash ∷ hs) (map-append_one txns norm)

-- A row that is not accepted leaves all as it is.
IsClean-other :
    (job : Import) (st : Staging) (norm : NormalizedTransaction)
    → is_accepted norm ≡ false
    → IsClean job st
    → (st.seen_in_batch_hashes ≡ accepted_hashes (st.normalized_txns ++ norm ∷ []))
      × AllDistinct st.seen_in_batch_hashes
      × All (IsImported job) (select is_accepted (st.normalized_txns ++ norm ∷ []))
IsClean-other job st norm other clean =
    rw (select-append_one is_accepted st.normalized_txns norm, other) clean

is_known-false :
    (job : Import) (st : Staging) (h : String)
    → is_known job st h ≡ ok false
    → (¬ IsIn h st.seen_in_batch_hashes) × IsFresh job.user_id h job.ledger
unfolding is_known
is_known-false job st h e = elim (Bool-cases (contains h st.seen_in_batch_hashes)) [
  | inl seen ↦ absurd (false≢true (sym (ok-injective (rw seen at e))))
  | inr new ↦ (
    contains-IsIn h st.seen_in_batch_hashes new,
    is_duplicate_transaction-false job.ledger job.user_id h (rw new at e),
  )
]

pub RowStep-IsClean :
    (job : Import) (st st' : Staging) → RowStep job st st' → IsClean job st → IsClean job st'
unfolding reject hold accept
RowStep-IsClean job st st' (rejects norm status e) clean =
    subst (IsClean job) e (IsClean-other job st norm (rw status refl) clean)
RowStep-IsClean job st st' (holds norm status e) clean =
    subst (IsClean job) e (IsClean-other job st norm (rw status refl) clean)
RowStep-IsClean job st st' (accepts norm true status own known e) clean =
    subst (IsClean job) e (IsClean-other job st norm (rw status refl) clean)
RowStep-IsClean job st st' (accepts norm false status own known e) (seen, distinct, all) =
    let (new, fresh) = is_known-false job st norm.dedup_hash known in
    let passes : is_accepted norm ≡ true = rw status refl in
    let hashes = st.seen_in_batch_hashes in
    let listed = map-append_one (select is_accepted st.normalized_txns) norm in
    subst (IsClean job) e (
      rw (select-append_one is_accepted st.normalized_txns norm, passes)
        (
          ap (λ hs. hs ++ norm.dedup_hash ∷ []) seen ∙ sym listed,
          AllDistinct-append_one hashes norm.dedup_hash distinct new,
          All-append (IsImported job) (select is_accepted st.normalized_txns) (norm ∷ []) all
              ((own.0, own.1, fresh), tt),
        ))

pub stage_rows-IsClean :
    (lib : Platform) (job : Import) (rows : List ParsedRow) {st : Staging}
    → stage_rows lib job empty_staging rows ≡ ok st
    → IsClean job st
stage_rows-IsClean lib job rows e =
    stage_rows-induction (IsClean job) lib job empty_staging rows (RowStep-IsClean job)
      (refl, tt, tt) e
