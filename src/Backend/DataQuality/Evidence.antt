-- ===== src/Backend/DataQuality/Evidence.antt =====
-- What a sufficient answer says of the data.
use buy_or_wait_ai_advisor.Common.{
  All, Bool, Bool-cases, Date, IsIn, List, Option, Result, String, [], any_of, arith, err, false,
  if◌then◌else◌, inl, inr, length, ltb, nat_eq, none, ok, ok-injective, pair_eq, refl, select, some,
  string_eq, true, zero_money, ◌+◌, ◌==◌, ◌||◌, ◌∙◌, ◌∷◌, ◌≡◌, ◌≤ℤ◌, ◌≤◌,
}
use buy_or_wait_ai_advisor.Currency.Fx.{FxEngine}
use buy_or_wait_ai_advisor.Backend.DataQuality.{
  DataQualityEvaluator, DataQualityResult, FinancialAccount, FinancialProfile, Reason, Transaction,
  check_accounts, check_currencies, check_history, evaluate, evaluate_profile, has_balance,
  is_convertible, is_liquid, is_missing, is_verified, most_recent, require, sufficient,
}

require-sufficient :
    (test : Result Bool) (reason : Reason) (next : Result DataQualityResult)
    → require test reason next ≡ ok sufficient
    → (test ≡ ok true) × (next ≡ ok sufficient)
require-sufficient (ok true) reason next e = (refl, e)
require-sufficient (ok false) reason next e = cc
require-sufficient (err k) reason next e = cc

-- Every currency that is asked for can be converted.
abbrev pub IsConvertible : Date → FxEngine → String → Date → FinancialAccount → Type 0
IsConvertible today fx home as_of_date a =
    is_convertible today fx a.currency home as_of_date ≡ ok true

check_accounts-sufficient :
    (today : Date) (fx : FxEngine) (home : String) (as_of_date : Date)
    (accounts : List FinancialAccount) (next : Result DataQualityResult)
    → check_accounts today fx home as_of_date accounts next ≡ ok sufficient
    → All (IsConvertible today fx home as_of_date) accounts × (next ≡ ok sufficient)
unfolding check_accounts
check_accounts-sufficient today fx home as_of_date [] next e = (tt, e)
check_accounts-sufficient today fx home as_of_date (a ∷ accounts) next e =
    let (here, later) = require-sufficient _ _ _ e in
    let (rest, after) = check_accounts-sufficient today fx home as_of_date accounts next later in
    ((here, rest), after)

-- The currency of the purchase, if one is named.
abbrev pub PurchaseConvertible : Date → FxEngine → String → Date → Option String → Type 0
PurchaseConvertible today fx home as_of_date none = Unit
PurchaseConvertible today fx home as_of_date (some currency) =
    (if currency == "" then ok true else is_convertible today fx currency home as_of_date) ≡ ok true

abbrev pub AllConvertible :
    Date → Option FxEngine → String → Date → List FinancialAccount → Option String → Type 0
AllConvertible today none home as_of_date accounts purchase = Unit
AllConvertible today (some fx) home as_of_date accounts purchase =
    All (IsConvertible today fx home as_of_date) accounts
    × PurchaseConvertible today fx home as_of_date purchase

check_currencies-sufficient :
    (today : Date) (fx : Option FxEngine) (home : String) (as_of_date : Date)
    (accounts : List FinancialAccount) (purchase : Option String) (next : Result DataQualityResult)
    → check_currencies today fx home as_of_date accounts purchase next ≡ ok sufficient
    → AllConvertible today fx home as_of_date accounts purchase × (next ≡ ok sufficient)
unfolding check_currencies
check_currencies-sufficient today none home as_of_date accounts purchase next e = (tt, e)
check_currencies-sufficient today (some fx) home as_of_date accounts none next e =
    let (all, later) = check_accounts-sufficient today fx home as_of_date accounts next e in
    ((all, tt), later)
check_currencies-sufficient today (some fx) home as_of_date accounts (some currency) next e =
    let (all, later) = check_accounts-sufficient today fx home as_of_date accounts _ e in
    let (passed, rest) = require-sufficient _ _ _ later in ((all, passed), rest)

most_recent-IsIn :
    (tx : Transaction) (txs : List Transaction)
    → (found : Transaction) × IsIn found (tx ∷ txs) × (found.transaction_date ≡ most_recent tx txs)
unfolding most_recent
most_recent-IsIn tx [] = (tx, inl refl, refl)
most_recent-IsIn tx (other ∷ txs) =
    let (found, is_in, e) = most_recent-IsIn other txs in
    elim (Bool-cases (ltb tx.transaction_date (most_recent other txs))) [
      | inl later ↦ (found, inr is_in, e ∙ rw later refl)
      | inr first ↦ (tx, inl refl, rw first refl)
    ]

-- A verified transaction that is not stale.
abbrev pub HasFresh : DataQualityEvaluator → Date → List Transaction → Type 0
HasFresh evaluator as_of_date verified =
    (tx : Transaction) × IsIn tx verified
    × (as_of_date ≤ tx.transaction_date + evaluator.max_staleness_days)

check_history-sufficient :
    (evaluator : DataQualityEvaluator) (as_of_date : Date) (verified : List Transaction)
    → check_history evaluator as_of_date verified ≡ ok sufficient
    → (evaluator.min_historical_transactions ≤ length verified)
      × HasFresh evaluator as_of_date verified
unfolding check_history
check_history-sufficient evaluator as_of_date [] e = ground arith
check_history-sufficient evaluator as_of_date (tx ∷ txs) e =
    let (found, is_in, same_date) = most_recent-IsIn tx txs in
    (ground arith, (found, is_in, ground arith))

-- All that a sufficient answer rests on.
abbrev pub HasEvidence :
    Date
    → DataQualityEvaluator
    → FinancialProfile
    → List FinancialAccount
    → List Transaction
    → Date
    → Option String
    → Type 0
HasEvidence today evaluator profile accounts transactions as_of_date purchase =
    (zero_money ≤ℤ profile.minimum_balance_to_keep)
    × ((ltb 0 (length (select is_liquid accounts)) || has_balance profile) ≡ true)
    × (any_of is_missing (select is_liquid accounts) ≡ false)
    × AllConvertible today evaluator.fx profile.home_currency as_of_date (select is_liquid accounts)
        purchase
    × (evaluator.min_historical_transactions
        ≤ length (select (is_verified as_of_date) transactions))
    × HasFresh evaluator as_of_date (select (is_verified as_of_date) transactions)

evaluate_profile-HasEvidence :
    (today : Date) (evaluator : DataQualityEvaluator) (profile : FinancialProfile)
    (accounts : List FinancialAccount) (transactions : List Transaction) (as_of_date : Date)
    (purchase : Option String)
    → evaluate_profile today evaluator profile accounts transactions as_of_date purchase
      ≡ ok sufficient
    → HasEvidence today evaluator profile accounts transactions as_of_date purchase
unfolding evaluate_profile
evaluate_profile-HasEvidence today evaluator profile accounts transactions as_of_date purchase e =
    let (minimum, e₁) = require-sufficient _ _ _ e in
    let (liquid, e₂) = require-sufficient _ _ _ e₁ in
    let (present, e₃) = require-sufficient _ _ _ e₂ in
    let (convertible, e₄) =
      check_currencies-sufficient today evaluator.fx profile.home_currency as_of_date _ purchase _
        e₃ in
    let (enough, fresh) = check_history-sufficient evaluator as_of_date _ e₄ in
    (
      ground (arith, ok-injective minimum),
      ok-injective liquid,
      ground (arith, ok-injective present),
      convertible,
      enough,
      fresh,
    )

-- A sufficient answer is given only with a profile whose minimum balance is not negative, with a
-- liquid account or a positive balance, with the balance of every liquid account, with every such
-- account and the currency of the purchase, if it is named, convertible to the home currency where an
-- engine of rates is given, with the demanded number of verified transactions, and with one of these that is not stale.
pub evaluate-HasEvidence :
    (today : Date) (evaluator : DataQualityEvaluator) (profile : Option FinancialProfile)
    (accounts : List FinancialAccount) (transactions : List Transaction) (as_of_date : Date)
    (purchase : Option String)
    → evaluate today evaluator profile accounts transactions as_of_date purchase ≡ ok sufficient
    → (given : FinancialProfile) × (profile ≡ some given)
      × HasEvidence today evaluator given accounts transactions as_of_date purchase
unfolding evaluate
evaluate-HasEvidence today evaluator none accounts transactions as_of_date purchase e = cc
evaluate-HasEvidence today evaluator (some profile) accounts transactions as_of_date purchase e = (
  profile,
  refl,
  evaluate_profile-HasEvidence today evaluator profile accounts transactions as_of_date purchase e,
)
