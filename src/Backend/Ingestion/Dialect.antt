-- ===== src/Backend/Ingestion/Dialect.antt =====
-- backend/ingestion/dialect.py: `DialectDetector`. The sets of synonyms are lists.
use Prim.Native.Char.{code}
use mathlib.Core.Option
use buy_or_wait_ai_advisor.Common.{
  Bool, List, Option, Result, String, [], any_of, contains, count_of_text, eqb, err, false,
  get_elem?, has_text, if◌then◌else◌, index_error, leb, lower, ltb, map, nat_eq, none, not, ok,
  pair_eq, select, some, string_eq, strip, suc, take, true, value_error, ℕ, ◌&&◌, ◌+◌, ◌==◌, ◌>>=◌,
  ◌||◌, ◌∷◌,
}
use buy_or_wait_ai_advisor.Backend.Ingestion.Models.{DialectInfo, Platform, is_filled, text_or}
use buy_or_wait_ai_advisor.Backend.Ingestion.Normalizer.{is_found}

abbrev pub date_synonyms : List String
date_synonyms =
    "date" ∷ "transaction date" ∷ "txn date" ∷ "posted date" ∷ "posting date" ∷ "value date"
    ∷ "date settled" ∷ "booking date" ∷ "trans date" ∷ "activity date" ∷ []

abbrev pub desc_synonyms : List String
desc_synonyms =
    "description" ∷ "narration" ∷ "narrative" ∷ "details" ∷ "payee" ∷ "merchant" ∷ "memo"
    ∷ "transaction details" ∷ "particulars" ∷ "name" ∷ "counterparty" ∷ "transaction description"
    ∷ "reference" ∷ []

abbrev pub amount_synonyms : List String
amount_synonyms =
    "amount" ∷ "transaction amount" ∷ "total" ∷ "value" ∷ "net amount" ∷ "trans amount"
    ∷ "amount (usd)" ∷ "amount (inr)" ∷ "amount (gbp)" ∷ "amount (eur)" ∷ []

abbrev pub debit_synonyms : List String
debit_synonyms =
    "debit" ∷ "debits" ∷ "withdrawal" ∷ "withdrawals" ∷ "paid out" ∷ "debit amount" ∷ "dr"
    ∷ "expense" ∷ "spent" ∷ "outgoing" ∷ "payments" ∷ "debit (dr)" ∷ "withdrawal (dr)"
    ∷ "amount debited" ∷ []

abbrev pub credit_synonyms : List String
credit_synonyms =
    "credit" ∷ "credits" ∷ "deposit" ∷ "deposits" ∷ "paid in" ∷ "credit amount" ∷ "cr" ∷ "income"
    ∷ "received" ∷ "incoming" ∷ "lodgements" ∷ "credit (cr)" ∷ "deposit (cr)" ∷ "amount credited"
    ∷ []

abbrev pub currency_synonyms : List String
currency_synonyms = "currency" ∷ "curr" ∷ "ccy" ∷ "iso currency" ∷ []

abbrev pub category_synonyms : List String
category_synonyms = "category" ∷ "classification" ∷ "type" ∷ "transaction type" ∷ "tag" ∷ []

abbrev pub balance_synonyms : List String
balance_synonyms =
    "balance" ∷ "running balance" ∷ "available balance" ∷ "closing balance" ∷ "ledger balance" ∷ []

-- `line.count(c)` of one character, given by its code.
unfoldable pub count_code : ℕ → String → ℕ
count_code n line = count_of_text (λ c. eqb (code c) n) line

-- How often the character stands in the lines.
unfoldable pub score : List String → ℕ → ℕ
unfolding count_code
score [] c = 0
score (line ∷ lines) c = count_code c line + score lines c

-- The candidates are the comma, the semicolon, the tab and the bar; the first of the greatest counts.
unfoldable pub best_delimiter : List String → ℕ × String → List (ℕ × String) → ℕ × String
unfolding score
best_delimiter lines best [] = best
best_delimiter lines best ((c, text) ∷ candidates) =
    let n = score lines c in
    best_delimiter lines (if ltb best.0 n then (n, text) else best) candidates

unfoldable pub detect_delimiter : Platform → String → String
unfolding best_delimiter
detect_delimiter lib text_sample =
    let first_lines = take 5 (lib.splitlines text_sample) in
    (best_delimiter first_lines (score first_lines 44, ",")
      ((59, ";") ∷ (9, "\t") ∷ (124, "|") ∷ [])).1

unfoldable pub match_column : Platform → String → List String → Bool
unfolding strip lower has_text
match_column lib header synonyms =
    let clean = lib.sub "\\s+" " " (strip (lower (lib.sub "[^a-zA-Z0-9\\s]" " " header))) in
    contains clean synonyms || any_of (has_text clean) synonyms

-- The columns that are found so far.
pub record Columns : Type 0 where
  pub date_col : Option String
  pub desc_col : Option String
  pub amount_col : Option String
  pub debit_col : Option String
  pub credit_col : Option String
  pub currency_col : Option String
  pub category_col : Option String
  pub balance_col : Option String

abbrev pub no_columns : Columns
no_columns = record {
  date_col = none;
  desc_col = none;
  amount_col = none;
  debit_col = none;
  credit_col = none;
  currency_col = none;
  category_col = none;
  balance_col = none;
}

-- A role that is open, for a header that matches it.
unfoldable pub takes : Platform → String → Option String → List String → Bool
unfolding match_column
takes lib h_strip col synonyms = not (is_filled col) && match_column lib h_strip synonyms

unfoldable pub take_column : Platform → Columns → String → Columns
unfolding takes
take_column lib cols h =
    if takes lib h cols.date_col date_synonyms
    then record cols { date_col = some h }
    else if takes lib h cols.desc_col desc_synonyms
    then record cols { desc_col = some h }
    else if takes lib h cols.debit_col debit_synonyms
    then record cols { debit_col = some h }
    else if takes lib h cols.credit_col credit_synonyms
    then record cols { credit_col = some h }
    else if takes lib h cols.amount_col amount_synonyms
    then record cols { amount_col = some h }
    else if takes lib h cols.currency_col currency_synonyms
    then record cols { currency_col = some h }
    else if takes lib h cols.category_col category_synonyms
    then record cols { category_col = some h }
    else if takes lib h cols.balance_col balance_synonyms
    then record cols { balance_col = some h }
    else cols

unfoldable pub detect_columns : Platform → Columns → List String → Columns
unfolding take_column strip
detect_columns lib cols [] = cols
detect_columns lib cols (h ∷ headers) = detect_columns lib (take_column lib cols (strip h)) headers

-- Day and month by which of the two numbers is above 12.
unfoldable pub day_or_month : Option (ℕ × ℕ) → Option String
day_or_month none = none
day_or_month (some (first, second)) =
    if ltb 12 first && leb second 12
    then some "%d/%m/%Y"
    else if ltb 12 second && leb first 12
    then some "%m/%d/%Y"
    else none

-- The format that one sample shows.
unfoldable pub format_of : Platform → String → Option String
unfolding day_or_month
format_of lib s =
    if is_found (lib.search "^\\d{4}-\\d{2}-\\d{2}$" s)
    then some "%Y-%m-%d"
    else if is_found (lib.search "^\\d{4}/\\d{2}/\\d{2}$" s)
    then some "%Y/%m/%d"
    else if is_found (lib.search "^\\d{1,2}-[a-zA-Z]{3}-\\d{4}$" s)
    then some "%d-%b-%Y"
    else day_or_month (lib.two_numbers "^(\\d{1,2})[/\\-\\.](\\d{1,2})[/\\-\\.](\\d{4})$" s)

unfoldable pub detect_date_format : Platform → List String → String
unfolding strip format_of
detect_date_format lib [] = "%Y-%m-%d"
detect_date_format lib (s ∷ sample_dates) =
    let rest = detect_date_format lib sample_dates in
    elim (format_of lib (strip s)) [ none ↦ rest | some fmt ↦ fmt ]

-- `not row or not any(cell.strip() for cell in row)`
unfoldable pub is_blank : List String → Bool
unfolding strip
is_blank row = not (any_of (λ cell. not (strip cell == "")) row)

-- The headers, and the rows after them.
unfoldable pub split_headers : List (List String) → List String × List (List String)
unfolding is_blank strip
split_headers rows = elim (select (λ row. not (is_blank row)) rows) [
  | [] ↦ ([], [])
  | headers ∷ others ↦ (map strip headers, others)
]

-- `headers[1] if len(headers) > 1 else headers[0]`
abbrev pub second_header : List String → Result String
second_header [] = err index_error
second_header (a ∷ []) = ok a
second_header (a ∷ b ∷ headers) = ok b

abbrev pub or_header : Option String → List String → Result String
or_header desc_col headers =
    if is_filled desc_col then ok (text_or "" desc_col) else second_header headers

-- `headers.index(name)`
unfoldable pub index_of : String → List String → Option ℕ
index_of name [] = none
index_of name (h ∷ headers) =
    let rest = Option.map suc (index_of name headers) in if h == name then some 0 else rest

-- The stripped cells of a column that are not empty.
unfoldable pub cells_at : ℕ → List (List String) → List String
unfolding strip
cells_at i [] = []
cells_at i (r ∷ rows) =
    let rest = cells_at i rows in
    elim (get_elem? r i) [
      | none ↦ rest
      | some cell ↦ if strip cell == "" then rest else strip cell ∷ rest
    ]

unfoldable pub sample_dates_of : String → List String → List (List String) → List String
unfolding index_of cells_at
sample_dates_of date_col headers sample_rows = elim (index_of date_col headers) [
  | none ↦ []
  | some i ↦ cells_at i sample_rows
]

-- Without the texts of the two exceptions.
abbrev pub require_columns : Bool → Result Bool
require_columns true = ok true
require_columns false = err value_error

unfoldable pub detect_dialect : Platform → String → String → Result DialectInfo
unfolding detect_delimiter split_headers detect_columns detect_date_format sample_dates_of
detect_dialect lib text_content encoding = do
  let delimiter = detect_delimiter lib text_content
  let (headers, others) = split_headers (lib.csv_rows delimiter false text_content)
  let cols = detect_columns lib no_columns headers
  dated ← require_columns (is_filled cols.date_col)
  desc_col ← or_header cols.desc_col headers
  valued ←
      require_columns
        (is_filled cols.amount_col || is_filled cols.debit_col || is_filled cols.credit_col)
  let date_col = text_or "" cols.date_col
  ok (record {
    delimiter = delimiter;
    has_header = true;
    date_column = date_col;
    desc_column = desc_col;
    amount_column = cols.amount_col;
    debit_column = cols.debit_col;
    credit_column = cols.credit_col;
    currency_column = cols.currency_col;
    category_column = cols.category_col;
    balance_column = cols.balance_col;
    date_format = detect_date_format lib (sample_dates_of date_col headers (take 10 others));
    sign_convention = "standard";
    encoding = encoding;
  })
