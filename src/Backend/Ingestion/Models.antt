-- ===== src/Backend/Ingestion/Models.antt =====
-- backend/ingestion/models.py and the tables that an import reads and writes.
use buy_or_wait_ai_advisor.Common.{
  Bool, Date, Decimal, Dict, List, Money, Option, String, false, if◌then◌else◌, nat_eq, none, not,
  pair_eq, some, string_eq, true, ℕ, ◌==◌,
}

-- An amount of a statement: a number, or the NaN that `Decimal("nan")` reads.
pub data Amount : Type 0 where
  number : Money → Amount
  not_a_number : Amount

abbrev pub ImportId : Type 0
ImportId = String

pub data IngestionState : Type 0 where
  uploaded validating parsed needs_review verified committed failed : IngestionState

-- `IngestionState.value`
abbrev pub state_value : IngestionState → String
state_value IngestionState.uploaded = "uploaded"
state_value IngestionState.validating = "validating"
state_value IngestionState.parsed = "parsed"
state_value IngestionState.needs_review = "needs_review"
state_value IngestionState.verified = "verified"
state_value IngestionState.committed = "committed"
state_value IngestionState.failed = "failed"

pub data VerificationStatus : Type 0 where
  verified ambiguous rejected duplicate : VerificationStatus

-- `==` of two statuses
abbrev pub is_status : VerificationStatus → VerificationStatus → Bool
is_status VerificationStatus.verified VerificationStatus.verified = true
is_status VerificationStatus.ambiguous VerificationStatus.ambiguous = true
is_status VerificationStatus.rejected VerificationStatus.rejected = true
is_status VerificationStatus.duplicate VerificationStatus.duplicate = true
is_status _ _ = false

pub record ParsedRow : Type 0 where
  pub line_number : ℕ
  pub raw_fields : Dict String String
  pub date_str : Option String
  pub description_str : Option String
  pub amount_str : Option String
  pub debit_str : Option String
  pub credit_str : Option String
  pub currency_str : Option String
  pub category_str : Option String
  pub balance_str : Option String

pub record NormalizedTransaction : Type 0 where
  pub user_id : ImportId
  pub account_id : Option ImportId
  pub import_batch_id : ImportId
  pub line_number : ℕ
  pub transaction_date : Date
  pub amount : Amount
  pub direction : String
  pub currency : String
  pub normalized_description : String
  pub original_description : String
  pub category : String
  pub category_reason : String
  pub is_internal_transfer : Bool
  pub dedup_hash : String
  pub verification_status : VerificationStatus
  pub confidence_state : String
  pub rejection_reason : Option String
  pub ambiguity_reason : Option String
  pub source_provenance : String
  pub raw_row_data : Dict String String
  pub lifecycle_status : String
  pub cash_type : String
  pub external_id : Option String

pub record DialectInfo : Type 0 where
  pub delimiter : String
  pub has_header : Bool
  pub date_column : String
  pub desc_column : String
  pub amount_column : Option String
  pub debit_column : Option String
  pub credit_column : Option String
  pub currency_column : Option String
  pub category_column : Option String
  pub balance_column : Option String
  pub date_format : String
  pub sign_convention : String
  pub encoding : String

pub record ImportPreview : Type 0 where
  pub batch_id : ImportId
  pub user_id : ImportId
  pub filename : String
  pub content_hash : String
  pub state : IngestionState
  pub total_rows : ℕ
  pub accepted_rows : ℕ
  pub ambiguous_rows : ℕ
  pub rejected_rows : ℕ
  pub duplicate_rows : ℕ
  pub detected_dialect : DialectInfo
  pub category_distribution : Dict String ℕ
  pub sample_transactions : List NormalizedTransaction
  pub validation_errors : List String
  pub requires_user_review : Bool

-- A row of the table import_batches.
pub record ImportBatch : Type 0 where
  pub id : ImportId
  pub user_id : ImportId
  pub filename : String
  pub content_hash : String
  pub source_type : String
  pub upload_status : String
  pub parsing_status : String
  pub verification_status : String
  pub total_rows : ℕ
  pub imported_rows : ℕ

-- A row of the table transactions, as an import writes it.
pub record Transaction : Type 0 where
  pub user_id : ImportId
  pub account_id : Option ImportId
  pub import_batch_id : ImportId
  pub external_transaction_id : Option String
  pub dedup_hash : String
  pub transaction_date : Date
  pub amount : Amount
  pub currency : String
  pub amount_home : Amount
  pub direction : String
  pub normalized_description : String
  pub original_description : String
  pub category : String
  pub lifecycle_status : String
  pub cash_type : String
  pub flexibility : String
  pub source_provenance : String
  pub confidence_state : String

-- The columns of financial_accounts that are read: the owner and the three names.
pub record AccountNames : Type 0 where
  pub user_id : ImportId
  pub institution_name : Option String
  pub account_type : Option String
  pub account_mask : Option String

-- An audit event of a commit, with the entries of its metadata.
pub record AuditEvent : Type 0 where
  pub user_id : ImportId
  pub event_type : String
  pub actor_type : String
  pub actor_id : String
  pub batch_id : ImportId
  pub total_rows : ℕ
  pub committed_rows : ℕ
  pub filename : String
  pub content_hash : String

-- The tables as a database session sees them.
pub record Session : Type 0 where
  pub batches : List ImportBatch
  pub transactions : List Transaction
  pub accounts : List AccountNames
  pub audit_events : List AuditEvent

-- The standard library as the importer calls it.
pub record Platform : Type 0 where
  -- `datetime.strptime(s, fmt).date()`, `none` for ValueError
  pub strptime : String → String → Option Date
  -- `Decimal(s)`, `none` for InvalidOperation
  pub decimal : String → Option Decimal
  -- `re.search(pattern, text).group(0)`, `none` where there is no match
  pub search : String → String → Option String
  -- `re.sub(pattern, replacement, text)`, and the same with re.IGNORECASE
  pub sub : String → String → String → String
  pub sub_ignoring_case : String → String → String → String
  -- `hashlib.sha256(...).hexdigest()` of a text and of bytes
  pub sha256 : String → String
  pub sha256_bytes : List ℕ → String
  -- `date.isoformat()` and `f"{amount:.4f}"`
  pub isoformat : Date → String
  pub four_places : Amount → String
  -- `os.path.basename(path)` and the extension of `os.path.splitext(path)`
  pub basename : String → String
  pub extension : String → String
  -- `content.decode(encoding)`, `none` for UnicodeDecodeError, and the one with replacements
  pub decode : String → List ℕ → Option String
  pub decode_replacing : List ℕ → String
  -- `text.splitlines()`, and the rows of `csv.reader` by delimiter and `skipinitialspace`
  pub splitlines : String → List String
  pub csv_rows : String → Bool → String → List (List String)
  -- the first two groups of `re.match(pattern, text)` as numbers, and `str(n)`
  pub two_numbers : String → String → Option (ℕ × ℕ)
  pub show : ℕ → String

-- `text or ""`, and whether the text is neither None nor empty.
abbrev pub text_or : String → Option String → String
text_or other none = other
text_or other (some s) = if s == "" then other else s

abbrev pub is_filled : Option String → Bool
is_filled none = false
is_filled (some s) = not (s == "")
