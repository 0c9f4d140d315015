-- ===== src/Backend/Ingestion/Parser.antt =====
-- backend/ingestion/parsers/csv_parser.py: `CSVStatementParser`, on the rows that `csv.reader` returns.
use buy_or_wait_ai_advisor.Common.{
  Dict, List, Option, Result, String, [], append, err, if◌then◌else◌, insert, length, lookup, ltb,
  map, nat_eq, none, ok, pair_eq, some, string_eq, strip, suc, take, true, zero, ℕ, ◌++◌, ◌+◌, ◌-◌,
  ◌∷◌,
}
use buy_or_wait_ai_advisor.Backend.Ingestion.Models.{
  DialectInfo, ParsedRow, Platform, is_filled, text_or,
}
use buy_or_wait_ai_advisor.Backend.Ingestion.Dialect.{detect_dialect, is_blank}

-- The first of the encodings in which the bytes are a text.
unfoldable pub decode_by : Platform → List ℕ → List String → String × String
decode_by lib content [] = (lib.decode_replacing content, "utf-8-replace")
decode_by lib content (enc ∷ encodings) =
    let rest = decode_by lib content encodings in
    elim (lib.decode enc content) [ none ↦ rest | some text ↦ (text, enc) ]

abbrev pub supported_encodings : List String
supported_encodings = "utf-8-sig" ∷ "utf-8" ∷ "latin-1" ∷ "cp1252" ∷ []

-- The dialect of a text in which none is found.
abbrev pub default_dialect : String → DialectInfo
default_dialect encoding = record {
  delimiter = ",";
  has_header = true;
  date_column = "Date";
  desc_column = "Description";
  amount_column = some "Amount";
  debit_column = none;
  credit_column = none;
  currency_column = none;
  category_column = none;
  balance_column = none;
  date_format = "%Y-%m-%d";
  sign_convention = "standard";
  encoding = encoding;
}

-- `row + [""] * n`
unfoldable pub padded : ℕ → List String → List String
padded zero row = row
padded (suc n) row = padded n (row ++ "" ∷ [])

-- The row with as many cells as there are headers.
unfoldable pub fitted : ℕ → List String → List String
unfolding padded
fitted n row = if ltb (length row) n then padded (n - length row) row else take n row

-- `{headers[i]: row[i].strip() for i in range(len(headers))}`, continued from a dict.
unfoldable pub raw_fields_from : Dict String String → List String → List String → Dict String String
unfolding strip insert
raw_fields_from d [] row = d
raw_fields_from d (h ∷ headers) [] = d
raw_fields_from d (h ∷ headers) (cell ∷ row) = raw_fields_from (insert h (strip cell) d) headers row

-- `raw_dict.get(column) if column else None`
abbrev pub cell_at : Dict String String → Option String → Option String
cell_at raw_dict column = if is_filled column then lookup (text_or "" column) raw_dict else none

unfoldable pub parsed_row : DialectInfo → ℕ → List String → List String → ParsedRow
unfolding raw_fields_from fitted lookup
parsed_row dialect line_num headers row =
    let raw_dict = raw_fields_from [] headers (fitted (length headers) row) in
    record {
      line_number = line_num;
      raw_fields = raw_dict;
      date_str = lookup dialect.date_column raw_dict;
      description_str = lookup dialect.desc_column raw_dict;
      amount_str = cell_at raw_dict dialect.amount_column;
      debit_str = cell_at raw_dict dialect.debit_column;
      credit_str = cell_at raw_dict dialect.credit_column;
      currency_str = cell_at raw_dict dialect.currency_column;
      category_str = cell_at raw_dict dialect.category_column;
      balance_str = cell_at raw_dict dialect.balance_column;
    }

-- The error of a row with too many cells, if it has.
unfoldable pub row_errors : Platform → ℕ → List String → List String → List String
row_errors lib line_num headers row =
    if ltb (length headers) (length row)
    then append "Line " (
        append (lib.show line_num) (
          append ": Row has " (
            append (lib.show (length row)) (
              append " columns, expected "
                (append (lib.show (length headers)) ". Ignored excess columns.")))))
      ∷ []
    else []

-- The loop over the rows from a line number on; there are no headers before the first filled row.
unfoldable pub parse_rows :
    Platform → DialectInfo → ℕ → List String → List (List String) → List ParsedRow × List String
unfolding is_blank strip parsed_row row_errors
parse_rows lib dialect line_num headers [] = ([], [])
parse_rows lib dialect line_num [] (row ∷ rows) =
    let skipped = parse_rows lib dialect (line_num + 1) [] rows in
    let named = parse_rows lib dialect (line_num + 1) (map strip row) rows in
    if is_blank row then skipped else named
parse_rows lib dialect line_num (h ∷ headers) (row ∷ rows) =
    let (parsed_rows, parse_errors) = parse_rows lib dialect (line_num + 1) (h ∷ headers) rows in
    if is_blank row then (parsed_rows, parse_errors) else (
      parsed_row dialect line_num (h ∷ headers) row ∷ parsed_rows,
      row_errors lib line_num (h ∷ headers) row ++ parse_errors,
    )

-- By the dialect that was found; the message of the exception is left out.
abbrev pub parse_with :
    Platform → String → String → Result DialectInfo → DialectInfo × List ParsedRow × List String
parse_with lib text detected_enc (err e) =
    (default_dialect detected_enc, [], "Dialect detection failed: " ∷ [])
parse_with lib text detected_enc (ok dialect) =
    let (parsed_rows, parse_errors) =
      parse_rows lib dialect 1 [] (lib.csv_rows dialect.delimiter true text) in
    (dialect, parsed_rows, parse_errors)

unfoldable pub parse : Platform → List ℕ → DialectInfo × List ParsedRow × List String
unfolding decode_by detect_dialect parse_rows
parse lib content =
    let (text, detected_enc) = decode_by lib content supported_encodings in
    parse_with lib text detected_enc (detect_dialect lib text detected_enc)
