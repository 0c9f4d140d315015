-- ===== src/Backend/Ingestion/Rows/Steps.antt =====
-- One row of a statement as a step of the loop: turned away, held back, or accepted with its hash looked
-- up among those of the batch and in the ledger.
use mathlib.Core.Path.{subst}
use buy_or_wait_ai_advisor.Common.{
  >>=-eq-ok, Bool, Bool-cases, Date, List, Option, String, [], if◌then◌else◌, inl, inr, none, ok,
  ok-injective, refl, some, ◌∷◌, ◌≡◌,
}
use buy_or_wait_ai_advisor.Backend.Ingestion.Models.{
  Amount, NormalizedTransaction, ParsedRow, Platform, VerificationStatus, ambiguous, duplicate,
  is_filled, rejected,
}
use buy_or_wait_ai_advisor.Backend.Ingestion.Normalizer.{
  Resolved, parse_date, resolve_amount_and_direction,
}
use buy_or_wait_ai_advisor.Backend.Ingestion.Rows.{
  Import, Staging, accept, accepted_row, ambiguous_row, hold, is_known, reject, rejected_row,
  stage_amount, stage_dated, stage_resolved, stage_rows,
}

pub data RowStep (job : Import) (st st' : Staging) : Type 0 where
  rejects :
      (norm : NormalizedTransaction)
      → norm.verification_status ≡ rejected
      → reject norm st ≡ st'
      → RowStep job st st'
  holds :
      (norm : NormalizedTransaction)
      → norm.verification_status ≡ ambiguous
      → hold norm st ≡ st'
      → RowStep job st st'
  accepts :
      (norm : NormalizedTransaction) (is_dup : Bool)
      → norm.verification_status ≡ (if is_dup then duplicate else VerificationStatus.verified)
      → (norm.user_id ≡ job.user_id) × (norm.import_batch_id ≡ job.batch_id)
      → is_known job st norm.dedup_hash ≡ ok is_dup
      → accept norm is_dup st ≡ st'
      → RowStep job st st'

stage_amount-RowStep :
    (lib : Platform) (job : Import) (st : Staging) (row : ParsedRow) (d : Date) (amount : Amount)
    (direction : String) {st' : Staging}
    → stage_amount lib job st row d amount direction ≡ ok st'
    → RowStep job st st'
unfolding stage_amount accepted_row
stage_amount-RowStep lib job st row d amount direction e =
    let (is_dup, known, rest) = >>=-eq-ok _ _ e in
    accepts (accepted_row lib job row d amount direction is_dup) is_dup refl (refl, refl) known
      (ok-injective rest)

stage_resolved-RowStep :
    (lib : Platform) (job : Import) (st : Staging) (row : ParsedRow) (d : Date) (r : Resolved)
    {st' : Staging}
    → stage_resolved lib job st row d r ≡ ok st'
    → RowStep job st st'
unfolding stage_resolved ambiguous_row rejected_row
stage_resolved-RowStep lib job st row d (amount, direction, ambiguous, reason) e =
    holds (ambiguous_row lib job row d amount direction reason) refl (ok-injective e)
stage_resolved-RowStep lib job st row d (amount, direction, rejected, reason) e =
    rejects (rejected_row lib job row d reason) refl (ok-injective e)
stage_resolved-RowStep lib job st row d (none, direction, VerificationStatus.verified, reason) e =
    rejects (rejected_row lib job row d reason) refl (ok-injective e)
stage_resolved-RowStep lib job st row d (none, direction, duplicate, reason) e =
    rejects (rejected_row lib job row d reason) refl (ok-injective e)
stage_resolved-RowStep lib job st row d
      (some amount, direction, VerificationStatus.verified, reason) e =
    stage_amount-RowStep lib job st row d amount direction e
stage_resolved-RowStep lib job st row d (some amount, direction, duplicate, reason) e =
    stage_amount-RowStep lib job st row d amount direction e

pub stage_dated-RowStep :
    (lib : Platform) (job : Import) (st : Staging) (row : ParsedRow)
    (dated : Option Date × Option String) {st' : Staging}
    → stage_dated lib job st row dated ≡ ok st'
    → RowStep job st st'
unfolding stage_dated rejected_row
stage_dated-RowStep lib job st row (none, date_err) e =
    rejects (rejected_row lib job row job.today date_err) refl (ok-injective e)
stage_dated-RowStep lib job st row (some d, date_err) e = elim (Bool-cases (is_filled date_err)) [
  | inl unread ↦
      rejects (rejected_row lib job row job.today date_err) refl (ok-injective (rw unread at e))
  | inr fine ↦
      let (resolved, _, staged) =
        >>=-eq-ok (resolve_amount_and_direction lib row job.dialect)
          (stage_resolved lib job st row d) (rw fine at e) in
      stage_resolved-RowStep lib job st row d resolved staged
]

-- What every step keeps holds after the rows.
pub stage_rows-induction :
    (P : Staging → Type 0) (lib : Platform) (job : Import) (st : Staging) (rows : List ParsedRow)
    {st' : Staging}
    → ((s s' : Staging) → RowStep job s s' → P s → P s')
    → P st
    → stage_rows lib job st rows ≡ ok st'
    → P st'
unfolding stage_rows
stage_rows-induction P lib job st [] step p e = subst P (ok-injective e) p
stage_rows-induction P lib job st (row ∷ rows) step p e =
    let dated = parse_date lib row.date_str job.dialect.date_format in
    let (next, first, rest) =
      >>=-eq-ok (stage_dated lib job st row dated) (λ s. stage_rows lib job s rows) e in
    stage_rows-induction P lib job next rows step
      (step st next (stage_dated-RowStep lib job st row dated first) p) rest
