-- ===== src/Backend/Purchases.antt =====
-- backend/services/purchase_validator.py: `PurchaseValidator.validate_and_build`.
pub mod Answers
pub mod Validation
use buy_or_wait_ai_advisor.Common.{
  Bool, Date, Decimal, List, Option, Result, String, [], append, attribute_error, contains, err,
  false, finite, if◌then◌else◌, infinite, invalid_operation, invalid_purchase, leb, lower, ltb,
  ltb_ℤ, nan, nat_eq, none, not, ok, pair_eq, pos, pos_part, some, string_eq, strip, true,
  type_error, upper, value_error, zero_money, ℕ, ℤ, ◌&&◌, ◌+◌, ◌==◌, ◌>>=◌, ◌∷◌,
}

-- A value of the input dictionary: not there, `None`, a text, a date, or something else with its `str`
-- and its truth.
pub data RawValue : Type 0 where
  missing null : RawValue
  text : String → RawValue
  day : Date → RawValue
  other : String → Bool → RawValue

pub record RawOption : Type 0 where
  pub payment_option_id : RawValue
  pub payment_type : RawValue
  pub number_of_payments : RawValue
  pub first_payment_date : RawValue
  pub installment_amount : RawValue
  pub total_amount : RawValue
  pub interest_rate_pct : RawValue
  pub payment_frequency_days : Option ℕ

-- An element of the options: a dictionary, or something without a method `get`.
pub data RawEntry : Type 0 where
  entry : RawOption → RawEntry
  other_entry : RawEntry

-- The options: not there, something that cannot be iterated over, such as `None`, or a list.
pub data RawOptions : Type 0 where
  no_options null_options : RawOptions
  listed : List RawEntry → RawOptions

pub record RawPurchase : Type 0 where
  pub requested_amount : RawValue
  pub currency : RawValue
  pub request_date : RawValue
  pub desired_completion_date : RawValue
  pub allows_partial_payment : RawValue
  pub item_description : RawValue
  pub merchant_name : RawValue
  pub category : RawValue
  pub request_id : RawValue
  pub payment_options : RawOptions

-- The standard library as the validator calls it: `Decimal(s)`, `int(value)`, each `none` for an exception, `date.fromisoformat`, `date.isoformat`, whether `re.match` finds, `str(n)`.
pub record Parsers : Type 0 where
  pub decimal : String → Option Decimal
  pub int : RawValue → Option ℤ
  pub fromisoformat : String → Option Date
  pub isoformat : Date → String
  pub is_match : String → String → Bool
  pub show : ℕ → String

-- `PaymentOptionInput` and `PurchaseProposal` with the `Decimal`s that the validator passes, which need not
-- be finite.
pub record BuiltOption : Type 0 where
  pub payment_option_id : String
  pub payment_type : String
  pub number_of_payments : ℕ
  pub first_payment_date : Option Date
  pub installment_amount : Decimal
  pub total_amount : Decimal
  pub interest_rate_pct : Decimal
  pub payment_frequency_days : Option ℕ
  pub financing_fee : Decimal

pub record BuiltPurchase : Type 0 where
  pub request_id : String
  pub user_id : String
  pub requested_amount : Decimal
  pub currency : String
  pub request_date : Date
  pub desired_completion_date : Date
  pub allows_partial_payment : Bool
  pub item_description : String
  pub merchant_name : String
  pub category : String
  pub item_category : String
  pub payment_options : List BuiltOption

-- `amount > 0`, which is also the negation of `amount <= 0`: each raises for a NaN.
unfoldable pub is_above_zero : Decimal → Result Bool
is_above_zero (finite amount) = ok (ltb_ℤ zero_money amount)
is_above_zero (infinite below) = ok (not below)
is_above_zero (nan signalling) = err invalid_operation

-- `__post_init__` of `PurchaseProposal`.
unfoldable pub built_proposal : BuiltPurchase → Result BuiltPurchase
unfolding is_above_zero
built_proposal purchase = do
  above ← is_above_zero purchase.requested_amount
  if not above
      then err value_error
      else if ltb purchase.desired_completion_date purchase.request_date
      then err value_error
      else ok (
          if purchase.category == "" && not (purchase.item_category == "")
          then record purchase { category = purchase.item_category }
          else purchase)

-- `str(data.get(key, default))`
abbrev pub str_or : Parsers → String → RawValue → String
str_or lib default missing = default
str_or lib default null = "None"
str_or lib default (text s) = s
str_or lib default (day d) = lib.isoformat d
str_or lib default (other s truth) = s

-- `bool(data.get(key, True))`
abbrev pub truth_of : RawValue → Bool
truth_of missing = true
truth_of null = false
truth_of (text s) = not (s == "")
truth_of (day d) = true
truth_of (other s truth) = truth

abbrev pub or_invalid {ℓ} : {A : Type ℓ} → Option A → Result A
or_invalid none = err invalid_purchase
or_invalid (some a) = ok a

-- The check of a value that was parsed.
abbrev pub require_that : Bool → Result Bool
require_that true = ok true
require_that false = err invalid_purchase

unfoldable pub requested_amount_of : Parsers → RawValue → Result Decimal
requested_amount_of lib missing = err invalid_purchase
requested_amount_of lib null = err invalid_purchase
requested_amount_of lib (text s) = or_invalid (lib.decimal s)
requested_amount_of lib (day d) = or_invalid (lib.decimal (lib.isoformat d))
requested_amount_of lib (other s truth) = or_invalid (lib.decimal s)

-- A date, from a text or as it is; `absent` is for a value that is not given.
unfoldable pub date_of_raw : Parsers → Result Date → RawValue → Result Date
date_of_raw lib absent missing = absent
date_of_raw lib absent null = absent
date_of_raw lib absent (text s) = or_invalid (lib.fromisoformat s)
date_of_raw lib absent (day d) = ok d
date_of_raw lib absent (other s truth) = err invalid_purchase

-- The first payment date: what cannot be read is left out, and the request date stands in for it.
unfoldable pub first_date_or : Parsers → Date → RawValue → Date
first_date_or lib req_dt (text s) =
    let parsed : Date = elim (lib.fromisoformat s) [ none ↦ req_dt | some d ↦ d ] in
    if s == "" then req_dt else parsed
first_date_or lib req_dt (day d) = d
first_date_or lib req_dt missing = req_dt
first_date_or lib req_dt null = req_dt
first_date_or lib req_dt (other s truth) = req_dt

-- `try: Decimal(str(opt.get(key, "0"))) except: Decimal("0")`
abbrev pub decimal_or_zero : Parsers → RawValue → Decimal
decimal_or_zero lib raw = elim (lib.decimal (str_or lib "0" raw)) [
  | none ↦ finite zero_money
  | some amount ↦ amount
]

-- `int(opt.get("number_of_payments", 1))`, and the check that it is at least 1.
unfoldable pub payments_of : Parsers → RawValue → Result ℕ
payments_of lib missing = ok 1
payments_of lib raw = elim (lib.int raw) [
  | none ↦ err invalid_purchase
  | some n ↦ if ltb_ℤ n (pos 1) then err invalid_purchase else ok (pos_part n)
]

abbrev pub known_type : String → String
known_type p_type =
    if contains p_type ("full_payment" ∷ "installment" ∷ []) then p_type else "installment"

-- `tot_amt if tot_amt > Decimal("0") else amt`
unfoldable pub positive_or : Decimal → Decimal → Result Decimal
unfolding is_above_zero
positive_or amt tot_amt = do above ← is_above_zero tot_amt; ok (if above then tot_amt else amt)

-- One round of the loop over the options.
unfoldable pub option_of : Parsers → Decimal → Date → ℕ → RawOption → Result BuiltOption
unfolding payments_of first_date_or positive_or strip lower
option_of lib amt req_dt idx opt = do
  n_payments ← payments_of lib opt.number_of_payments
  total ← positive_or amt (decimal_or_zero lib opt.total_amount)
  ok (record {
    payment_option_id = str_or lib (append "opt_" (lib.show (idx + 1))) opt.payment_option_id;
    payment_type = known_type (lower (strip (str_or lib "installment" opt.payment_type)));
    number_of_payments = n_payments;
    first_payment_date = some (first_date_or lib req_dt opt.first_payment_date);
    installment_amount = decimal_or_zero lib opt.installment_amount;
    total_amount = total;
    interest_rate_pct = decimal_or_zero lib opt.interest_rate_pct;
    payment_frequency_days = opt.payment_frequency_days;
    financing_fee = finite zero_money;
  })

unfoldable pub options_from :
    Parsers → Decimal → Date → ℕ → List RawEntry → Result (List BuiltOption)
unfolding option_of
options_from lib amt req_dt idx [] = ok []
options_from lib amt req_dt idx (other_entry ∷ raw_options) = err attribute_error
options_from lib amt req_dt idx (entry opt ∷ raw_options) = do
  parsed ← option_of lib amt req_dt idx opt
  rest ← options_from lib amt req_dt (idx + 1) raw_options
  ok (parsed ∷ rest)

-- `enumerate(data.get("payment_options", []))`
unfoldable pub options_of : Parsers → Decimal → Date → RawOptions → Result (List BuiltOption)
unfolding options_from
options_of lib amt req_dt no_options = ok []
options_of lib amt req_dt null_options = err type_error
options_of lib amt req_dt (listed raw_options) = options_from lib amt req_dt 0 raw_options

-- `request_id or str(data.get("request_id", ""))`
abbrev pub or_given : Parsers → RawValue → Option String → String
or_given lib raw none = str_or lib "" raw
or_given lib raw (some id) = if id == "" then str_or lib "" raw else id

abbrev pub proposal_of :
    Parsers
    → RawPurchase
    → String
    → Option String
    → Decimal
    → Date
    → Date
    → String
    → List BuiltOption
    → BuiltPurchase
proposal_of lib input user_id request_id amt req_dt comp_dt currency parsed_options = record {
  request_id = or_given lib input.request_id request_id;
  user_id = user_id;
  requested_amount = amt;
  currency = currency;
  request_date = req_dt;
  desired_completion_date = comp_dt;
  allows_partial_payment = truth_of input.allows_partial_payment;
  item_description = strip (str_or lib "" input.item_description);
  merchant_name = strip (str_or lib "" input.merchant_name);
  category = strip (str_or lib "" input.category);
  item_category = "";
  payment_options = parsed_options;
}

-- The steps after the request date is read.
unfoldable pub dated_purchase :
    Parsers → RawPurchase → String → Option String → Decimal → Date → String → Result BuiltPurchase
unfolding date_of_raw strip options_of built_proposal
dated_purchase lib input user_id request_id amt req_dt currency = do
  comp_dt ← date_of_raw lib (ok req_dt) input.desired_completion_date
  ordered ← require_that (leb req_dt comp_dt)
  parsed_options ← options_of lib amt req_dt input.payment_options
  built_proposal
      (proposal_of lib input user_id request_id amt req_dt comp_dt currency parsed_options)

unfoldable pub validate_and_build :
    Parsers → RawPurchase → String → Option String → Result BuiltPurchase
unfolding requested_amount_of is_above_zero strip upper date_of_raw dated_purchase
validate_and_build lib input user_id request_id = do
  amt ← requested_amount_of lib input.requested_amount
  above ← is_above_zero amt
  positive ← require_that above
  let currency = upper (strip (str_or lib "USD" input.currency))
  coded ← require_that (lib.is_match "^[A-Z]{3}$" currency)
  req_dt ← date_of_raw lib (err invalid_purchase) input.request_date
  dated_purchase lib input user_id request_id amt req_dt currency
