-- ===== src/Backend/Ingestion/Rows/Counts.antt =====
-- The counts of a statement's rows.
use mathlib.Core.Path.{subst}
use buy_or_wait_ai_advisor.Backend.Ingestion.Rows.Steps.{
  RowStep, accepts, holds, rejects, stage_dated-RowStep, stage_rows-induction,
}
use buy_or_wait_ai_advisor.Common.{
  >>=-eq-ok, Bool, List, [], ap, arith, false, if◌then◌else◌, length, ok, ok-injective, refl,
  select, sym, true, ℕ, ◌++◌, ◌+◌, ◌∙◌, ◌∷◌, ◌≡◌,
}
use buy_or_wait_ai_advisor.Backend.Ingestion.Models.{
  NormalizedTransaction, ParsedRow, Platform, VerificationStatus, ambiguous, duplicate, is_status,
  rejected,
}
use buy_or_wait_ai_advisor.Backend.Ingestion.Rows.{
  Import, Staging, accept, empty_staging, hold, reject, stage_dated, stage_rows,
}
use buy_or_wait_ai_advisor.Backend.Ingestion.Rows.Steps.{
  RowStep, accepts, holds, rejects, stage_dated-RowStep, stage_rows-induction,
}
use buy_or_wait_ai_advisor.Backend.Ingestion.Normalizer.{parse_date}

abbrev pub count_of : VerificationStatus → List NormalizedTransaction → ℕ
count_of status txns = length (select (λ t. is_status t.verification_status status) txns)

-- The four counts are those of the rows, and every row has been counted.
abbrev IsTallyOf : ℕ → ℕ → ℕ → ℕ → List NormalizedTransaction → Type 0
IsTallyOf accepted_count ambiguous_count rejected_count duplicate_count txns =
    (accepted_count ≡ count_of VerificationStatus.verified txns)
    × (ambiguous_count ≡ count_of ambiguous txns)
    × (rejected_count ≡ count_of rejected txns)
    × (duplicate_count ≡ count_of duplicate txns)
    × (accepted_count + ambiguous_count + rejected_count + duplicate_count ≡ length txns)

abbrev pub IsTally : Staging → Type 0
IsTally st =
    IsTallyOf st.accepted_count st.ambiguous_count st.rejected_count st.duplicate_count
      st.normalized_txns

length-select_append :
    (p : NormalizedTransaction → Bool) (txns : List NormalizedTransaction)
    (norm : NormalizedTransaction)
    → length (select p (txns ++ norm ∷ []))
      ≡ (if p norm then length (select p txns) + 1 else length (select p txns))
length-select_append p [] norm = ground arith
length-select_append p (t ∷ txns) norm = ground (arith, length-select_append p txns norm)

length-append_one :
    (txns : List NormalizedTransaction) (norm : NormalizedTransaction)
    → length (txns ++ norm ∷ []) ≡ length txns + 1
length-append_one [] norm = refl
length-append_one (t ∷ txns) norm = omega (arith, length-append_one txns norm)

abbrev bump : VerificationStatus → VerificationStatus → ℕ → ℕ
bump status s n = if is_status status s then n + 1 else n

count_of-append :
    (txns : List NormalizedTransaction) (norm : NormalizedTransaction) (status : VerificationStatus)
    → norm.verification_status ≡ status
    → (s : VerificationStatus) → count_of s (txns ++ norm ∷ []) ≡ bump status s (count_of s txns)
count_of-append txns norm status e s =
    length-select_append (λ t. is_status t.verification_status s) txns norm ∙ rw e refl

bump_sum :
    (s : VerificationStatus) (a b c d : ℕ)
    → bump s VerificationStatus.verified a
        + bump s ambiguous b
        + bump s rejected c
        + bump s duplicate d
      ≡ a + b + c + d + 1
bump_sum VerificationStatus.verified a b c d = omega arith
bump_sum ambiguous a b c d = omega arith
bump_sum rejected a b c d = omega arith
bump_sum duplicate a b c d = omega arith

IsTallyOf-append :
    (a b c d : ℕ) (txns : List NormalizedTransaction) (norm : NormalizedTransaction)
    (status : VerificationStatus)
    → norm.verification_status ≡ status
    → IsTallyOf a b c d txns
    → IsTallyOf
        (bump status VerificationStatus.verified a)
        (bump status ambiguous b)
        (bump status rejected c)
        (bump status duplicate d)
        (txns ++ norm ∷ [])
IsTallyOf-append a b c d txns norm status e (ha, hb, hc, hd, total) =
    let count = count_of-append txns norm status e in
    (
      ap (bump status VerificationStatus.verified) ha ∙ sym (count VerificationStatus.verified),
      ap (bump status ambiguous) hb ∙ sym (count ambiguous),
      ap (bump status rejected) hc ∙ sym (count rejected),
      ap (bump status duplicate) hd ∙ sym (count duplicate),
      bump_sum status a b c d ∙ omega (arith, total, length-append_one txns norm),
    )

pub RowStep-IsTally :
    (job : Import) (st st' : Staging) → RowStep job st st' → IsTally st → IsTally st'
unfolding reject hold accept
RowStep-IsTally job st st' (rejects norm status e) tally = subst IsTally e (
    IsTallyOf-append st.accepted_count st.ambiguous_count st.rejected_count st.duplicate_count
      st.normalized_txns norm rejected status tally)
RowStep-IsTally job st st' (holds norm status e) tally = subst IsTally e (
    IsTallyOf-append st.accepted_count st.ambiguous_count st.rejected_count st.duplicate_count
      st.normalized_txns norm ambiguous status tally)
RowStep-IsTally job st st' (accepts norm true status own known e) tally = subst IsTally e (
    IsTallyOf-append st.accepted_count st.ambiguous_count st.rejected_count st.duplicate_count
      st.normalized_txns norm duplicate status tally)
RowStep-IsTally job st st' (accepts norm false status own known e) tally = subst IsTally e (
    IsTallyOf-append st.accepted_count st.ambiguous_count st.rejected_count st.duplicate_count
      st.normalized_txns norm VerificationStatus.verified status tally)

pub stage_rows-IsTally :
    (lib : Platform) (job : Import) (rows : List ParsedRow) {st : Staging}
    → stage_rows lib job empty_staging rows ≡ ok st
    → IsTally st
stage_rows-IsTally lib job rows e =
    stage_rows-induction IsTally lib job empty_staging rows (RowStep-IsTally job)
      (refl, refl, refl, refl, refl) e

-- Every step adds one row, so that a statement has as many as its file.
RowStep-length :
    (job : Import) (st st' : Staging)
    → RowStep job st st'
    → length st'.normalized_txns ≡ length st.normalized_txns + 1
unfolding reject hold accept
RowStep-length job st st' (rejects norm status e) =
    ap (λ s. length (Staging.normalized_txns s)) (sym e) ∙ length-append_one st.normalized_txns norm
RowStep-length job st st' (holds norm status e) =
    ap (λ s. length (Staging.normalized_txns s)) (sym e) ∙ length-append_one st.normalized_txns norm
RowStep-length job st st' (accepts norm true status own known e) =
    ap (λ s. length (Staging.normalized_txns s)) (sym e) ∙ length-append_one st.normalized_txns norm
RowStep-length job st st' (accepts norm false status own known e) =
    ap (λ s. length (Staging.normalized_txns s)) (sym e) ∙ length-append_one st.normalized_txns norm

pub stage_rows-length :
    (lib : Platform) (job : Import) (st : Staging) (rows : List ParsedRow) {st' : Staging}
    → stage_rows lib job st rows ≡ ok st'
    → length st'.normalized_txns ≡ length st.normalized_txns + length rows
unfolding stage_rows
stage_rows-length lib job st [] e =
    ap (λ s. length (Staging.normalized_txns s)) (sym (ok-injective e)) ∙ omega arith
stage_rows-length lib job st (row ∷ rows) e =
    let dated = parse_date lib row.date_str job.dialect.date_format in
    let (next, first, rest) =
      >>=-eq-ok (stage_dated lib job st row dated) (λ s. stage_rows lib job s rows) e in
    let one = RowStep-length job st next (stage_dated-RowStep lib job st row dated first) in
    omega (arith, one, stage_rows-length lib job next rows rest)
