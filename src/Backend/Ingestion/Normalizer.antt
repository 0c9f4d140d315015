-- ===== src/Backend/Ingestion/Normalizer.antt =====
-- backend/ingestion/normalizer.py: `TransactionNormalizer`.
pub mod Signs
use Prim.Native.Char.{code}
use buy_or_wait_ai_advisor.Common.{
  Bool, Date, Decimal, List, Money, Option, Result, String, [], abs_ℤ, append, contains,
  divide_signed, eqb, eqb_ℤ, err, false, finite, first_code, if◌then◌else◌, infinite, init_of,
  invalid_operation, last_code, leb_ℤ, ltb_ℤ, map, nan, nat_eq, negate, none, not, ok, pair_eq, pos,
  select_chars, some, string_eq, strip, tail_of, true, upper, zero_money, ℕ, ◌&&◌, ◌*ℤ◌, ◌++◌, ◌==◌,
  ◌||◌, ◌∷◌,
}
use buy_or_wait_ai_advisor.Backend.Ingestion.Models.{
  Amount, DialectInfo, ParsedRow, Platform, VerificationStatus, ambiguous, is_filled, not_a_number,
  number, rejected, text_or,
}

-- The currency symbols: dollar, euro, pound, rupee and yen.
abbrev pub currency_symbols : List ℕ
currency_symbols = 36 ∷ 8364 ∷ 163 ∷ 8377 ∷ 165 ∷ []

-- The sign in front, or the parentheses around: whether the value is negative, and the rest.
unfoldable pub split_sign : String → Bool × String
unfolding last_code init_of
split_sign val =
    if eqb (first_code val) 40 && eqb (last_code val) 41
    then (true, init_of (tail_of val))
    else if eqb (first_code val) 45
    then (true, tail_of val)
    else if eqb (first_code val) 43
    then (false, tail_of val)
    else (false, val)

-- `quantize(Decimal("0.0001"))`
unfoldable pub in_four_places : Money → Money
unfolding divide_signed ◌*ℤ◌
in_four_places amount = divide_signed amount 10_000 *ℤ pos 10_000

abbrev pub signed : Bool → Money → Money
signed is_negative d = if is_negative then negate d else d

-- A result of more than 28 digits is an `InvalidOperation`, with four of them after the point.
abbrev pub is_too_wide : Money → Bool
is_too_wide amount = leb_ℤ (pos 100_000_000_000_000_000_000_000_000_000_000) (abs_ℤ amount)

-- The sign and the `quantize` of what was read, `none` for `InvalidOperation`: that of an infinity and of
-- a signalling NaN, while a quiet NaN stays one.
unfoldable pub quantized : Bool → Option Decimal → Option Amount
unfolding in_four_places
quantized is_negative none = none
quantized is_negative (some (finite d)) =
    let amount = in_four_places (signed is_negative d) in
    if is_too_wide amount then none else some (number amount)
quantized is_negative (some (infinite below)) = none
quantized is_negative (some (nan signalling)) = if signalling then none else some not_a_number

unfoldable pub parse_clean_decimal : Platform → String → Option Amount
unfolding strip select_chars split_sign quantized
parse_clean_decimal lib raw_val =
    let plain =
      select_chars (λ c. not (contains (code c) currency_symbols) && not (eqb (code c) 32))
        (strip raw_val) in
    let (is_negative, rest) = split_sign plain in
    let val = select_chars (λ c. not (eqb (code c) 44)) rest in
    if strip raw_val == "" || val == "" then none else quantized is_negative (lib.decimal val)

-- `-amt` and `abs(amt)`
abbrev pub negated : Amount → Amount
negated (number d) = number (negate d)
negated not_a_number = not_a_number

abbrev pub magnitude : Amount → Amount
magnitude (number d) = number (abs_ℤ d)
magnitude not_a_number = not_a_number

-- An amount, its direction, its status and the reason for it.
abbrev pub Resolved : Type 0
Resolved = Option Amount × String × VerificationStatus × Option String

-- `cls.parse_clean_decimal(s) if s else None`, where a zero counts as nothing. A NaN is not equal to zero.
abbrev pub nonzero : Option Amount → Option Amount
nonzero none = none
nonzero (some (number d)) = if eqb_ℤ d zero_money then none else some (number d)
nonzero (some not_a_number) = some not_a_number

unfoldable pub column_amount : Platform → Option String → Option Amount
unfolding parse_clean_decimal
column_amount lib none = none
column_amount lib (some s) = if s == "" then none else nonzero (parse_clean_decimal lib s)

-- The format with two columns.
unfoldable pub dual_amount : Option Amount → Option Amount → Resolved
dual_amount (some debit_amt) (some credit_amt) =
    (none, "debit", ambiguous, some "Row has both Debit and Credit amounts populated")
dual_amount (some debit_amt) none =
    (some (negated (magnitude debit_amt)), "debit", VerificationStatus.verified, none)
dual_amount none (some credit_amt) =
    (some (magnitude credit_amt), "credit", VerificationStatus.verified, none)
dual_amount none none = (none, "debit", rejected, some "Both Debit and Credit fields are empty")

-- `" ".join(...)`
unfoldable pub joined : List String → String
joined [] = ""
joined (s ∷ []) = s
joined (s ∷ t ∷ texts) = append s (append " " (joined (t ∷ texts)))

-- The sign by the convention, unless the row says DR or CR.
unfoldable pub indicated : String → Bool → Bool → Amount → Amount
indicated sign_convention has_dr has_cr amt =
    let by_convention = if sign_convention == "inverted" then negated amt else amt in
    if has_dr && not has_cr
    then negated (magnitude by_convention)
    else if has_cr && not has_dr
    then magnitude by_convention
    else by_convention

abbrev pub is_found : Option String → Bool
is_found none = false
is_found (some _) = true

-- The comparison `amt < Decimal("0")` raises `InvalidOperation` for a NaN.
abbrev pub by_sign : Amount → Result Resolved
by_sign (number amt) = ok (
  some (number amt),
  (if ltb_ℤ amt zero_money then "debit" else "credit"),
  VerificationStatus.verified,
  none,
)
by_sign not_a_number = err invalid_operation

-- The amount that was parsed, with its sign by the row's words and the convention.
unfoldable pub parsed_amount :
    Platform → ParsedRow → String → String → Option Amount → Result Resolved
unfolding joined upper indicated
parsed_amount lib row sign_convention amount_str none =
    ok (none, "debit", rejected, some (append "Malformed amount value: '" (append amount_str "'")))
parsed_amount lib row sign_convention amount_str (some amt) =
    let full_text = upper (joined (map (λ field. field.1) row.raw_fields)) in
    let has_dr = is_found (lib.search "\\b(DR|DEBIT)\\b" full_text) in
    let has_cr = is_found (lib.search "\\b(CR|CREDIT)\\b" full_text) in
    by_sign (indicated sign_convention has_dr has_cr amt)

-- The format with one column.
unfoldable pub single_amount : Platform → ParsedRow → String → String → Result Resolved
unfolding parse_clean_decimal parsed_amount
single_amount lib row sign_convention amount_str =
    parsed_amount lib row sign_convention amount_str (parse_clean_decimal lib amount_str)

unfoldable pub resolve_amount_and_direction : Platform → ParsedRow → DialectInfo → Result Resolved
unfolding column_amount dual_amount single_amount
resolve_amount_and_direction lib row dialect =
    if is_filled dialect.debit_column || is_filled dialect.credit_column
    then ok (dual_amount (column_amount lib row.debit_str) (column_amount lib row.credit_str))
    else if is_filled dialect.amount_column && is_filled row.amount_str
    then single_amount lib row dialect.sign_convention (text_or "" row.amount_str)
    else ok (none, "debit", rejected, some "No amount column present in row")

abbrev pub fallback_formats : List String
fallback_formats =
    "%Y-%m-%d" ∷ "%d/%m/%Y" ∷ "%m/%d/%Y" ∷ "%d-%m-%Y" ∷ "%d-%b-%Y" ∷ "%Y/%m/%d" ∷ "%d.%m.%Y" ∷ []

-- `for fmt in formats_to_try: if fmt not in unique_formats: unique_formats.append(fmt)`
unfoldable pub unique_formats : List String → List String → List String
unique_formats found [] = found
unique_formats found (fmt ∷ formats) =
    unique_formats (if contains fmt found then found else found ++ fmt ∷ []) formats

-- The date by the first format that fits.
unfoldable pub first_date : Platform → String → List String → Option Date
first_date lib s [] = none
first_date lib s (fmt ∷ formats) =
    let rest = first_date lib s formats in
    elim (lib.strptime s fmt) [ none ↦ rest | some d ↦ some d ]

-- The parsed date, or the error message.
unfoldable pub parse_date : Platform → Option String → String → Option Date × Option String
unfolding strip unique_formats first_date
parse_date lib none date_format = (none, some "Empty date field")
parse_date lib (some date_str) date_format =
    if strip date_str == ""
    then (none, some "Empty date field")
    else elim (first_date lib (strip date_str)
        (unique_formats [] (date_format ∷ fallback_formats))) [
          | none ↦ (
            none,
            some (
                append "Unable to parse date string '"
                  (append date_str "' with candidate formats")),
          )
          | some d ↦ (some d, none)
        ]

abbrev pub or_unspecified : String → String
or_unspecified s = if s == "" then "Unspecified Transaction" else s

unfoldable pub normalize_description : Platform → Option String → String
unfolding strip
normalize_description lib none = "Unspecified Transaction"
normalize_description lib (some raw_desc) =
    let clean = strip (lib.sub "\\s+" " " raw_desc) in
    let untagged = lib.sub_ignoring_case "\\s+(?:REF|TRX|TXN|ID)[\\s#:]+[a-zA-Z0-9_-]+$" "" clean in
    if raw_desc == "" then "Unspecified Transaction" else or_unspecified (strip untagged)
