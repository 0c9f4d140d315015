-- ===== src/Tests/BackendWitnesses.antt =====
-- The theorems on exchange rates, the rate limiter and data quality, at small tables.
use buy_or_wait_ai_advisor.Common.{
  Date, Dict, List, Option, Result, [], arith, err, false, insert, lookup, lookup_or, nat_eq, none,
  ok, pair_eq, pos, refl, some, string_eq, true, units, ℕ, ◌∷◌, ◌≡◌, ◌≤◌,
}
use buy_or_wait_ai_advisor.Currency.Fx.{
  FxEngine, FxRateMetadata, Pair, Rate, add_rate, bridged, fx_engine, inverted, normalise,
  resolve_rate, resolve_single_pair, to_home,
}
use buy_or_wait_ai_advisor.Currency.Dates.{IsIndexed, add_rate-IsIndexed, fx_engine-IsIndexed}
use buy_or_wait_ai_advisor.Currency.Latest.{SingleOutcome, resolve_single_pair-SingleOutcome}
use buy_or_wait_ai_advisor.Currency.Rates.{
  RateOutcome, ResolvesTo, add_rate-resolve_rate, resolve_rate-RateOutcome, resolve_rate-le,
}
use buy_or_wait_ai_advisor.Backend.RateLimiter.{
  RateLimiter, check, check_window, is_login_throttled, login_key, record_failed_login, seconds,
}
use buy_or_wait_ai_advisor.Backend.RateLimiter.Windows.{
  Call, IsSpaced, no_calls_yet, run, run-IsSpaced, times_of,
}
use buy_or_wait_ai_advisor.Backend.RateLimiter.Logins.{
  LoginCheck, check_logins, record_failed_login-throttled,
}
use buy_or_wait_ai_advisor.Backend.DataQuality.{
  DataQualityEvaluator, FinancialAccount, FinancialProfile, Transaction, evaluate,
}
use buy_or_wait_ai_advisor.Backend.DataQuality.Evidence.{HasEvidence, evaluate-HasEvidence}

abbrev sample_index : Dict (Date × Pair) Rate
sample_index =
    ((739_000, ("EUR", "USD")), pos 110_000_000)
    ∷ ((738_990, ("EUR", "USD")), pos 120_000_000)
    ∷ ((738_980, ("USD", "IDR")), pos 1_600_000_000_000)
    ∷ []

abbrev sample_fx : FxEngine
sample_fx = fx_engine sample_index

abbrev rate_returned : Result FxRateMetadata → Option (Rate × Date)
rate_returned (ok meta) = some (meta.rate, meta.effective_date)
rate_returned (err e) = none

eur_to_idr :
    rate_returned (resolve_rate 739_000 sample_fx "eur " "IDR" 738_995)
    ≡ some (pos 1_920_000_000_000, 738_980)
unfolding fx_engine resolve_rate inverted bridged lookup insert
eur_to_idr = refl

resolve_single_pair-SingleOutcome_example :
    SingleOutcome sample_fx
      ("EUR", "USD")
      738_995
      (resolve_single_pair 739_000 sample_fx ("EUR", "USD") 738_995)
resolve_single_pair-SingleOutcome_example =
    resolve_single_pair-SingleOutcome 739_000 sample_fx ("EUR", "USD") 738_995
      (fx_engine-IsIndexed sample_index)

resolve_rate-RateOutcome_example :
    RateOutcome sample_fx 738_995
      (normalise "eur")
      (normalise "IDR")
      (resolve_rate 739_000 sample_fx "eur" "IDR" 738_995)
resolve_rate-RateOutcome_example =
    resolve_rate-RateOutcome 739_000 sample_fx "eur" "IDR" 738_995
      (fx_engine-IsIndexed sample_index)

resolve_rate-le_example : 738_980 ≤ 738_995
unfolding fx_engine resolve_rate inverted bridged lookup insert
resolve_rate-le_example =
    resolve_rate-le 739_000 sample_fx "eur" "IDR" 738_995 (fx_engine-IsIndexed sample_index) refl

add_rate-resolve_rate_example :
    ResolvesTo
      (resolve_rate 739_000
        (add_rate 739_001 "usd" "eur" (pos 90_000_000) sample_fx)
        "usd"
        "eur"
        739_001)
      (pos 90_000_000)
      739_001
unfolding normalise
add_rate-resolve_rate_example =
    add_rate-resolve_rate 739_000 739_001 "usd" "eur" (pos 90_000_000) sample_fx refl

add_rate-IsIndexed_example : IsIndexed (add_rate 739_001 "usd" "eur" (pos 90_000_000) sample_fx)
add_rate-IsIndexed_example =
    add_rate-IsIndexed 739_001 "usd" "eur" (pos 90_000_000) sample_fx
      (fx_engine-IsIndexed sample_index)

-- Two requests a minute, for every key.
abbrev sample_calls : List Call
sample_calls =
    (seconds 100, "a")
    ∷ (seconds 110, "a")
    ∷ (seconds 111, "b")
    ∷ (seconds 120, "a")
    ∷ (seconds 161, "a")
    ∷ []

passed_calls :
    times_of "a" (run (λ _. 2) (λ _. 60) no_calls_yet [] sample_calls).1
    ≡ seconds 161 ∷ seconds 110 ∷ seconds 100 ∷ []
unfolding run check lookup_or insert check_window
passed_calls = refl

run-IsSpaced_example :
    IsSpaced 2 (seconds 60) (times_of "a" (run (λ _. 2) (λ _. 60) no_calls_yet [] sample_calls).1)
run-IsSpaced_example =
    run-IsSpaced (λ _. 2) (λ _. 60) (seconds 100) sample_calls "a"
      (omega arith, (omega arith, (omega arith, (omega arith, (omega arith, tt)))))

abbrev one_failure : RateLimiter
one_failure = (record_failed_login (seconds 100) "ip" " A@b" no_calls_yet).1

-- A check of the same login in between.
abbrev one_check : LoginCheck
one_check = record {
  at = seconds 115;
  ip = "ip";
  email = "a@b";
  max_failures = 5;
  cooldown_seconds = 60;
}

record_failed_login-throttled_example :
    (wait_time : ℕ) × ((is_login_throttled (seconds 120) "ip" "a@b" 2 60 (
        check_logins
          (one_check ∷ [])
          (record_failed_login (seconds 110) "ip" "a@b" one_failure).1)).0
      ≡ ok (true, wait_time))
    × (1 ≤ wait_time)
unfolding record_failed_login lookup_or insert login_key
record_failed_login-throttled_example =
    record_failed_login-throttled (seconds 110) (seconds 120) "ip" "a@b" 2 60 one_failure
      (one_check ∷ []) (omega arith) (omega arith) (omega arith) (omega arith, tt) (omega arith)

abbrev fail_at : List ℕ → RateLimiter → RateLimiter
fail_at [] limiter = limiter
fail_at (t ∷ times) limiter = fail_at times (record_failed_login (seconds t) "ip" "a@b" limiter).1

-- Five failures within five minutes: refused at 299 seconds, but let through two seconds later, when the
-- first of them is no longer counted.
lapsed :
    ((is_login_throttled
        (seconds 299)
        "ip"
        "a@b"
        5
        60
        (fail_at (0 ∷ 70 ∷ 140 ∷ 210 ∷ 299 ∷ []) no_calls_yet)).0
      ≡ ok (true, 60))
    × ((is_login_throttled
          (seconds 301)
          "ip"
          "a@b"
          5
          60
          (fail_at (0 ∷ 70 ∷ 140 ∷ 210 ∷ 299 ∷ []) no_calls_yet)).0
        ≡ ok (false, 0))
unfolding is_login_throttled record_failed_login lookup_or insert login_key
lapsed = (refl, refl)

abbrev sample_evaluator : DataQualityEvaluator
sample_evaluator = record {
  min_historical_transactions = 1;
  max_staleness_days = 90;
  fx = some sample_fx;
}

abbrev sample_profile : FinancialProfile
sample_profile = record {
  home_currency = "USD";
  minimum_balance_to_keep = units 100;
  current_available_balance = none;
}

abbrev sample_account : FinancialAccount
sample_account = record {
  status = "active";
  account_type = "savings";
  currency = "EUR";
  current_balance = some (units 500);
}

abbrev sample_transaction : Transaction
sample_transaction = record {
  confidence_state = "verified";
  lifecycle_status = "settled";
  transaction_date = 738_990;
}

evaluate-HasEvidence_example :
    (given : FinancialProfile) × (some sample_profile ≡ some given)
    × HasEvidence 739_000 sample_evaluator given
        (sample_account ∷ [])
        (sample_transaction ∷ [])
        739_000
        (some "IDR")
unfolding evaluate fx_engine to_home resolve_rate lookup insert
evaluate-HasEvidence_example =
    evaluate-HasEvidence 739_000 sample_evaluator (some sample_profile) (sample_account ∷ [])
      (sample_transaction ∷ []) 739_000 (some "IDR") refl
