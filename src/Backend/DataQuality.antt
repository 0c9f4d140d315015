-- ===== src/Backend/DataQuality.antt =====
-- Whether a user's data suffice for a decision: backend/services/data_quality.py. The records are the
-- columns of the database rows that are read; an answer's texts are its parts.
pub mod Evidence
use buy_or_wait_ai_advisor.Common.{
  Bool, Date, List, Money, Option, Result, String, [], any_of, contains, err, false, if◌then◌else◌,
  leb, length, ltb, ltb_ℤ, nat_eq, none, not, ok, pair_eq, rate_missing, select, some, string_eq,
  true, units, value_error, zero_money, ℕ, ◌&&◌, ◌+◌, ◌==◌, ◌||◌, ◌∷◌,
}
use buy_or_wait_ai_advisor.Currency.Fx.{FxEngine, to_home}

pub record FinancialProfile : Type 0 where
  pub home_currency : String
  pub minimum_balance_to_keep : Money
  pub current_available_balance : Option Money

pub record FinancialAccount : Type 0 where
  pub status : String
  pub account_type : String
  pub currency : String
  pub current_balance : Option Money

pub record Transaction : Type 0 where
  pub confidence_state : String
  pub lifecycle_status : String
  pub transaction_date : Date

pub record DataQualityEvaluator : Type 0 where
  pub min_historical_transactions : ℕ
  pub max_staleness_days : ℕ
  pub fx : Option FxEngine

pub data Reason : Type 0 where
  no_profile negative_minimum no_liquid_account missing_balance : Reason
  account_currency purchase_currency : String → Reason
  short_history : ℕ → Reason
  stale : Date → Reason

-- `is_sufficient`, and with which reason not.
pub data DataQualityResult : Type 0 where
  sufficient : DataQualityResult
  insufficient : Reason → DataQualityResult

unfoldable pub is_liquid : FinancialAccount → Bool
is_liquid a = a.status == "active" && contains a.account_type ("checking" ∷ "savings" ∷ "cash" ∷ [])

unfoldable pub is_missing : FinancialAccount → Bool
is_missing a = elim a.current_balance [ none ↦ true | some _ ↦ false ]

unfoldable pub has_balance : FinancialProfile → Bool
has_balance profile = elim profile.current_available_balance [
  | none ↦ false
  | some balance ↦ ltb_ℤ zero_money balance
]

-- `try: self.fx.to_home(…) except FXRateMissingError`
abbrev pub is_converted : Result Money → Result Bool
is_converted (ok amount) = ok true
is_converted (err rate_missing) = ok false
is_converted (err e) = err e

unfoldable pub is_convertible : Date → FxEngine → String → String → Date → Result Bool
unfolding to_home
is_convertible today fx currency home as_of_date =
    if currency == home
    then ok true
    else is_converted (to_home today fx (units 1) currency home as_of_date)

-- Goes on to the next check where this one passes.
abbrev pub require : Result Bool → Reason → Result DataQualityResult → Result DataQualityResult
require (ok true) reason next = next
require (ok false) reason next = ok (insufficient reason)
require (err e) reason next = err e

unfoldable pub check_accounts :
    Date
    → FxEngine
    → String
    → Date
    → List FinancialAccount
    → Result DataQualityResult
    → Result DataQualityResult
unfolding is_convertible
check_accounts today fx home as_of_date [] next = next
check_accounts today fx home as_of_date (a ∷ accounts) next =
    let rest = check_accounts today fx home as_of_date accounts next in
    require (is_convertible today fx a.currency home as_of_date) (account_currency a.currency) rest

-- Step 3.
unfoldable pub check_currencies :
    Date
    → Option FxEngine
    → String
    → Date
    → List FinancialAccount
    → Option String
    → Result DataQualityResult
    → Result DataQualityResult
unfolding check_accounts is_convertible
check_currencies today none home as_of_date accounts purchase next = next
check_currencies today (some fx) home as_of_date accounts none next =
    check_accounts today fx home as_of_date accounts next
check_currencies today (some fx) home as_of_date accounts (some currency) next =
    check_accounts today fx home as_of_date accounts (
      require (if currency == "" then ok true else is_convertible today fx currency home as_of_date)
        (purchase_currency currency) next)

unfoldable pub is_verified : Date → Transaction → Bool
is_verified as_of_date tx =
    tx.confidence_state == "verified"
    && (leb tx.transaction_date as_of_date
        && contains tx.lifecycle_status ("settled" ∷ "pending" ∷ "scheduled" ∷ []))

-- `max(tx.transaction_date for tx in txs)` of a first one and the others.
unfoldable pub most_recent : Transaction → List Transaction → Date
most_recent tx [] = tx.transaction_date
most_recent tx (other ∷ txs) =
    let rest = most_recent other txs in
    if ltb tx.transaction_date rest then rest else tx.transaction_date

-- Steps 4 and 5.
unfoldable pub check_history :
    DataQualityEvaluator → Date → List Transaction → Result DataQualityResult
unfolding most_recent
check_history evaluator as_of_date verified =
    if ltb (length verified) evaluator.min_historical_transactions
    then ok (insufficient (short_history (length verified)))
    else elim verified [
      | [] ↦ err value_error
      | tx ∷ txs ↦
          if ltb (most_recent tx txs + evaluator.max_staleness_days) as_of_date
          then ok (insufficient (stale (most_recent tx txs)))
          else ok sufficient
    ]

unfoldable pub evaluate_profile :
    Date
    → DataQualityEvaluator
    → FinancialProfile
    → List FinancialAccount
    → List Transaction
    → Date
    → Option String
    → Result DataQualityResult
unfolding is_liquid is_missing has_balance check_currencies is_verified check_history
evaluate_profile today evaluator profile accounts transactions as_of_date purchase =
    let liquid = select is_liquid accounts in
    require (ok (not (ltb_ℤ profile.minimum_balance_to_keep zero_money))) negative_minimum (
      require (ok (ltb 0 (length liquid) || has_balance profile)) no_liquid_account (
        require (ok (not (any_of is_missing liquid))) missing_balance (
          check_currencies today evaluator.fx profile.home_currency as_of_date liquid purchase
            (check_history evaluator as_of_date (select (is_verified as_of_date) transactions)))))

unfoldable pub evaluate :
    Date
    → DataQualityEvaluator
    → Option FinancialProfile
    → List FinancialAccount
    → List Transaction
    → Date
    → Option String
    → Result DataQualityResult
unfolding evaluate_profile
evaluate today evaluator none accounts transactions as_of_date purchase =
    ok (insufficient no_profile)
evaluate today evaluator (some profile) accounts transactions as_of_date purchase =
    evaluate_profile today evaluator profile accounts transactions as_of_date purchase
