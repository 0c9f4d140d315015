-- ===== src/Tests/PurchaseWitnesses.antt =====
-- A purchase with one option, given as texts, and the theorem on validations at it.
use buy_or_wait_ai_advisor.Common.{
  List, String, [], err, false, finite, if◌then◌else◌, infinite, invalid_operation, map, map_ok,
  nan, nat_eq, none, ok, pair_eq, pos, refl, some, string_eq, type_error, units, ◌==◌, ◌∷◌, ◌≡◌,
}
use buy_or_wait_ai_advisor.Backend.Purchases.{
  BuiltOption, BuiltPurchase, Parsers, RawOption, RawPurchase, entry, listed, missing, null,
  null_options, text, validate_and_build,
}
use buy_or_wait_ai_advisor.Backend.Purchases.Answers.{Answers}

abbrev toy_parsers : Parsers
toy_parsers = record {
  decimal = λ s.
      if s == "40"
      then some (finite (units 40))
      else if s == "NaN"
      then some (nan false)
      else if s == "Infinity"
      then some (infinite false)
      else none;
  int = λ raw. some (pos 3);
  fromisoformat = λ s. if s == "2024-01-05" then some 738_890 else none;
  isoformat = λ d. "d";
  is_match = λ pattern s. s == "EUR";
  show = λ n. "n";
}

abbrev toy_option : RawOption
toy_option = record {
  payment_option_id = missing;
  payment_type = text " Monthly";
  number_of_payments = text "3";
  first_payment_date = missing;
  installment_amount = text "x";
  total_amount = missing;
  interest_rate_pct = missing;
  payment_frequency_days = some 30;
}

abbrev toy_purchase : RawPurchase
toy_purchase = record {
  requested_amount = text "40";
  currency = text " eur ";
  request_date = text "2024-01-05";
  desired_completion_date = null;
  allows_partial_payment = missing;
  item_description = missing;
  merchant_name = missing;
  category = text "books ";
  request_id = missing;
  payment_options = listed (entry toy_option ∷ []);
}

abbrev shown : BuiltPurchase → List String
shown p = p.currency ∷ p.category ∷ map BuiltOption.payment_type p.payment_options

toy_built :
    map_ok shown (validate_and_build toy_parsers toy_purchase "u" none)
    ≡ ok ("EUR" ∷ "books" ∷ "installment" ∷ [])
unfolding validate_and_build
toy_built = refl

-- A NaN and options that are `None` raise something else than the exception for an invalid purchase; an
-- infinite amount is let through.
nan_amount :
    validate_and_build toy_parsers (record toy_purchase { requested_amount = text "NaN" }) "u" none
    ≡ err invalid_operation
unfolding validate_and_build
nan_amount = refl

null_given :
    validate_and_build toy_parsers (record toy_purchase { payment_options = null_options }) "u" none
    ≡ err type_error
unfolding validate_and_build
null_given = refl

infinite_amount :
    map_ok BuiltPurchase.requested_amount (
      validate_and_build toy_parsers
        (record toy_purchase { requested_amount = text "Infinity" })
        "u"
        none)
    ≡ ok (infinite false)
unfolding validate_and_build
infinite_amount = refl
