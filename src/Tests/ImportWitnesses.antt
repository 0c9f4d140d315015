-- ===== src/Tests/ImportWitnesses.antt =====
-- The import of a small statement, and the theorems on imports at it.
use buy_or_wait_ai_advisor.Common.{
  List, Option, Result, String, [], abs_ℤ, divide_half_even, divide_signed, eqb_ℤ, err, false,
  false≢true, finite, has_text, head_of, if◌then◌else◌, init_of, inl, inr, insert,
  invalid_operation, last_code, length, lookup, lookup_or, lower, map, map_ok, multiple_results,
  nan, nat_eq, negate, negsuc, none, ok, pair_eq, pos, refl, select, select_chars, some, string_eq,
  strip, take, true, units, upper, zero_money, ℕ, ◌&&◌, ◌*ℤ◌, ◌++◌, ◌==◌, ◌↔◌, ◌∷◌, ◌≡◌,
}
use buy_or_wait_ai_advisor.Backend.Ingestion.Models.{
  DialectInfo, ImportPreview, NormalizedTransaction, ParsedRow, Platform, Session, Transaction,
  VerificationStatus, ambiguous, not_a_number, number, rejected,
}
use buy_or_wait_ai_advisor.Backend.Ingestion.Service.{
  Parsed, commit_statement_batch, preview_of, stage_and_preview_statement, transaction_of,
}
use buy_or_wait_ai_advisor.Backend.Ingestion.Normalizer.{resolve_amount_and_direction}
use buy_or_wait_ai_advisor.Backend.Ingestion.Normalizer.Signs.{
  AmountOutcome, number_or, resolve_amount_and_direction-IsSigned,
}
use buy_or_wait_ai_advisor.Backend.Ingestion.Security.{validate_file_content}
use buy_or_wait_ai_advisor.Backend.Ingestion.Security.Files.{
  IsAcceptable, validate_file_content-IsAcceptable,
}
use buy_or_wait_ai_advisor.Backend.Ingestion.Deduplicator.Ledger.{IsSound}
use buy_or_wait_ai_advisor.Backend.Ingestion.Rows.{empty_staging}
use buy_or_wait_ai_advisor.Backend.Ingestion.Rows.Hashes.{is_accepted}
use buy_or_wait_ai_advisor.Backend.Ingestion.Service.Commit.{commit_statement_batch-IsSound}
use buy_or_wait_ai_advisor.Backend.Ingestion.Service.Batches.{IsClosed, commit_statement_batch-once}
use buy_or_wait_ai_advisor.Backend.Ingestion.Service.Imports.{
  IsPreview, commit-stage_and_preview_statement, stage_and_preview_statement-IsPreview,
}
use buy_or_wait_ai_advisor.Backend.Ingestion.Parser.{parse}

-- The cells of a statement with two descriptions, one of which the detection takes for the credits.
abbrev toy_table : List (List String)
toy_table =
    ("Date" ∷ "Description" ∷ "Original Description" ∷ "Amount" ∷ [])
    ∷ ("2024-01-05" ∷ "Coffee" ∷ "COFFEE 1" ∷ "-12.50" ∷ [])
    ∷ (" " ∷ [])
    ∷ ("2024-01-05" ∷ "Gift" ∷ "GIFT" ∷ "40" ∷ "extra" ∷ [])
    ∷ []

-- A library that knows one date and two amounts.
abbrev toy_platform : Platform
toy_platform = record {
  strptime = λ s fmt. if s == "2024-01-05" && fmt == "%Y-%m-%d" then some 738_890 else none;
  decimal = λ s.
      if s == "12.50"
      then some (finite (pos 1_250_000_000))
      else if s == "40"
      then some (finite (units 40))
      else if s == "nan"
      then some (nan false)
      else none;
  search = λ pattern text. none;
  sub = λ pattern replacement text. text;
  sub_ignoring_case = λ pattern replacement text. text;
  sha256 = λ s. s;
  sha256_bytes = λ content. "f";
  isoformat = λ d. "d";
  four_places =
      λ amount. if eqb_ℤ (number_or zero_money (some amount)) (units 40) then "40" else "12.50";
  basename = λ path. path;
  extension = λ path. ".csv";
  decode = λ encoding content. some "t";
  decode_replacing = λ content. "t";
  splitlines = λ text. text ∷ [];
  csv_rows = λ delimiter skip text. toy_table;
  two_numbers = λ pattern text. none;
  show = λ n. "n";
}

abbrev toy_dialect : DialectInfo
toy_dialect = record {
  delimiter = ",";
  has_header = true;
  date_column = "Date";
  desc_column = "Text";
  amount_column = some "Amount";
  debit_column = none;
  credit_column = none;
  currency_column = none;
  category_column = none;
  balance_column = none;
  date_format = "%Y-%m-%d";
  sign_convention = "standard";
  encoding = "utf-8";
}

abbrev toy_row : ℕ → String → String → ParsedRow
toy_row n date amount = record {
  line_number = n;
  raw_fields = ("Amount", amount) ∷ [];
  date_str = some date;
  description_str = some "Coffee";
  amount_str = some amount;
  debit_str = none;
  credit_str = none;
  currency_str = none;
  category_str = none;
  balance_str = none;
}

-- A debit, the same again, a credit, and a row without a date.
abbrev toy_parse : List ℕ → Parsed
toy_parse content = (
  toy_dialect,
  toy_row 2 "2024-01-05" "-12.50"
      ∷ toy_row 3 "2024-01-05" "-12.50"
      ∷ toy_row 4 "2024-01-05" "40"
      ∷ toy_row 5 "" "40"
      ∷ [],
  [],
)

abbrev empty_session : Session
empty_session = record { batches = []; transactions = []; accounts = []; audit_events = [] }

unfoldable import_run : ℕ
unfolding stage_and_preview_statement commit_statement_batch resolve_amount_and_direction strip
    lower upper select_chars last_code init_of insert lookup lookup_or negate abs_ℤ divide_signed
    divide_half_even ◌*ℤ◌ head_of has_text
import_run = 0

abbrev staged : Result (Session × ImportPreview × List NormalizedTransaction)
staged =
    stage_and_preview_statement toy_platform 739_000 "b" "n" toy_parse empty_session "u" "s.csv"
      (97 ∷ []) none "standard"

abbrev counts_of : ImportPreview → List ℕ
counts_of preview =
    preview.accepted_rows ∷ preview.duplicate_rows ∷ preview.rejected_rows ∷ preview.total_rows ∷ []

staged_counts : map_ok (λ r. counts_of r.1) staged ≡ ok (2 ∷ 1 ∷ 1 ∷ 4 ∷ [])
unfolding import_run
staged_counts = refl

abbrev no_preview : Session × ImportPreview × List NormalizedTransaction
no_preview = (empty_session, preview_of "b" "u" "s.csv" "f" 0 [] toy_dialect empty_staging, [])

abbrev the_import : Session × ImportPreview × List NormalizedTransaction
the_import = elim staged [ err e ↦ no_preview | ok r ↦ r ]

stage_and_preview_statement-IsPreview_example :
    (Session.transactions the_import.0 ≡ []) × IsPreview the_import.1 the_import.2
unfolding import_run
stage_and_preview_statement-IsPreview_example =
    stage_and_preview_statement-IsPreview toy_platform 739_000 "b" "n" toy_parse empty_session "u"
      "s.csv" (97 ∷ []) none "standard" refl

commit-stage_and_preview_statement_example :
    (session₂ : Session) × (commit_statement_batch the_import.0 "u" "b" the_import.2 false
      ≡ ok (session₂, 2))
    × (session₂.transactions ≡ [] ++ map (transaction_of "u" "b") (select is_accepted the_import.2))
    × (IsSound [] → IsSound session₂.transactions)
unfolding import_run
commit-stage_and_preview_statement_example =
    commit-stage_and_preview_statement toy_platform 739_000 "b" "n" toy_parse empty_session "u"
      "s.csv" (97 ∷ []) none "standard" refl refl

abbrev committed_session : Session
committed_session = elim (commit_statement_batch the_import.0 "u" "b" the_import.2 false) [
  | err e ↦ empty_session
  | ok r ↦ r.0
]

abbrev first_hash : String
first_hash = "u:no_acc:d:12.50:coffee"

abbrev second_hash : String
second_hash = "u:no_acc:d:40:coffee"

other_hashes : ¬ (first_hash ≡ second_hash)
other_hashes e = false≢true ((string_eq.beq_iff first_hash second_hash).1 e)

commit_statement_batch-IsSound_example :
    IsSound committed_session.transactions
    × ((txs : List Transaction) × (committed_session.transactions
          ≡ Session.transactions the_import.0 ++ txs)
        × (length txs ≡ 2))
unfolding import_run
commit_statement_batch-IsSound_example =
    commit_statement_batch-IsSound the_import.0 "u" "b" the_import.2 (λ v. tt)
      (λ m. elim m [ inl e ↦ other_hashes e | inr nowhere ↦ nowhere ], (λ m. m, tt)) refl

commit_statement_batch-once_example : IsClosed committed_session "u" "b"
unfolding import_run
commit_statement_batch-once_example =
    commit_statement_batch-once the_import.0 "u" "b" the_import.2 false refl

validate_file_content-IsAcceptable_example :
    (validate_file_content toy_platform "s.csv" (97 ∷ []) ≡ ok true)
    ↔ IsAcceptable toy_platform "s.csv" (97 ∷ [])
validate_file_content-IsAcceptable_example =
    validate_file_content-IsAcceptable toy_platform "s.csv" (97 ∷ [])

resolve_amount_and_direction-IsSigned_example :
    AmountOutcome toy_platform
      (toy_row 2 "2024-01-05" "-12.50")
      toy_dialect
      (resolve_amount_and_direction toy_platform (toy_row 2 "2024-01-05" "-12.50") toy_dialect)
resolve_amount_and_direction-IsSigned_example =
    resolve_amount_and_direction-IsSigned toy_platform (toy_row 2 "2024-01-05" "-12.50") toy_dialect

debit_of_twelve :
    resolve_amount_and_direction toy_platform (toy_row 2 "2024-01-05" "-12.50") toy_dialect
    ≡ ok (some (number (negsuc 1_249_999_999)), "debit", VerificationStatus.verified, none)
unfolding import_run
debit_of_twelve = refl

-- A NaN: verified in a statement with two columns, an exception in one with a single column.
nan_verified :
    resolve_amount_and_direction toy_platform
      (record (toy_row 2 "2024-01-05" "") { debit_str = some "nan" })
      (record toy_dialect { debit_column = some "Debit"; credit_column = some "Credit" })
    ≡ ok (some not_a_number, "debit", VerificationStatus.verified, none)
unfolding import_run
nan_verified = refl

nan_raised :
    resolve_amount_and_direction toy_platform (toy_row 2 "2024-01-05" "nan") toy_dialect
    ≡ err invalid_operation
unfolding import_run
nan_raised = refl

-- Ambiguous rows all have the empty hash: once two of them are committed by the override, the query for
-- the third one raises.
abbrev as_held : NormalizedTransaction → NormalizedTransaction
as_held t = record t { dedup_hash = ""; verification_status = ambiguous }

abbrev held_rows : List NormalizedTransaction
held_rows = map as_held (take 2 the_import.2)

abbrev overridden_session : Session
overridden_session = elim (commit_statement_batch the_import.0 "u" "b" held_rows true) [
  | err e ↦ empty_session
  | ok r ↦ record r.0 { batches = Session.batches the_import.0 }
]

override_twice :
    commit_statement_batch overridden_session "u" "b" held_rows true ≡ err multiple_results
unfolding import_run
override_twice = refl

abbrev columns_of : Parsed → List (Option String)
columns_of (dialect, rows, errors) =
    dialect.amount_column ∷ dialect.credit_column ∷ map ParsedRow.amount_str rows
    ++ map ParsedRow.credit_str rows

-- `cr` is in `description`, so that the second description is read as the credits, and its rows have
-- no amount.
two_descriptions :
    columns_of (parse toy_platform [])
    ≡ some "Amount"
      ∷ some "Original Description"
      ∷ some "-12.50"
      ∷ some "40"
      ∷ some "COFFEE 1"
      ∷ some "GIFT"
      ∷ []
unfolding import_run parse
two_descriptions = refl

abbrev statuses_of : Session × ImportPreview × List NormalizedTransaction → List VerificationStatus
statuses_of result = map NormalizedTransaction.verification_status result.2

two_descriptions_rejected :
    map_ok statuses_of (
      stage_and_preview_statement toy_platform 739_000 "b" "n"
        (parse toy_platform)
        empty_session
        "u"
        "s.csv"
        (97 ∷ [])
        none
        "standard")
    ≡ ok (rejected ∷ rejected ∷ [])
unfolding import_run parse
two_descriptions_rejected = refl
