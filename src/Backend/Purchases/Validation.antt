-- ===== src/Backend/Purchases/Validation.antt =====
-- The options of a purchase, and the whole validation: backend/services/purchase_validator.py.
use buy_or_wait_ai_advisor.Common.{
  Error, List, Option, String, invalid_purchase, nat_eq, pair_eq, string_eq, ◌≡◌, ◌⊎◌,
}
use buy_or_wait_ai_advisor.Backend.Purchases.{BuiltPurchase, Parsers, RawEntry, RawPurchase, listed}
use buy_or_wait_ai_advisor.Backend.Purchases.Answers.{
  Answers, IsExplained, IsValidPurchase, OptionsFault,
}

-- An exception of the loop over the options.
abbrev EntriesFault : Parsers → List RawEntry → Error → Type 0
EntriesFault lib entries e = (e ≡ invalid_purchase) ⊎ OptionsFault lib (listed entries) e

module _ (lib : Parsers) (input : RawPurchase) (user_id : String) (request_id : Option String) where
  abbrev Causes : Error → Type 0
  Causes = IsExplained lib input

  abbrev Wanted : BuiltPurchase → Type 0
  Wanted = IsValidPurchase lib user_id
