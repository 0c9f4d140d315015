-- ===== src/Tests/StateWitnesses.antt =====
-- Financial states built from events, the theorems on them, and an evaluation that starts from a profile.
use buy_or_wait_ai_advisor.Common.{
  All, Bool, Date, List, Money, Result, String, [], abs_ℤ, arith, civil_of, date_of,
  days_before_month, days_before_year, days_in_month, divide_half_even, divide_signed, err,
  false≢true, inl, inr, insert, length, lookup, map, map_ok, month_start, nat_eq, negate, none, ok,
  out_of_fuel, pair_eq, refl, select, some, sort_by, string_eq, true, units, zero_money, ℕ, ◌*ℤ◌,
  ◌+ℤ◌, ◌-ℤ◌, ◌==◌, ◌↔◌, ◌∷◌, ◌≡◌, ◌≤ℤ◌, ◌≤◌,
}
use buy_or_wait_ai_advisor.Domain.{
  CashflowEventInput, FinancialProfileInput, FinancialState, LifecycleEvent, PurchaseProposal,
  ScheduledItem, fixed_categories, variable_categories,
}
use buy_or_wait_ai_advisor.State.Builder.{build_financial_state, fixed_items}
use buy_or_wait_ai_advisor.State.Resolve.{resolve_events}
use buy_or_wait_ai_advisor.State.Projections.{project_salary, project_variable_category, step_loop}
use buy_or_wait_ai_advisor.State.Resolve.Laws.{resolve_events-superseded}
use buy_or_wait_ai_advisor.State.Builder.Ahead.{AllAhead, build_financial_state-AllAhead}
use buy_or_wait_ai_advisor.State.Builder.Quiet.{build_financial_state-safe_amount}
use buy_or_wait_ai_advisor.State.Builder.Total.{build_financial_state-Returns}
use buy_or_wait_ai_advisor.State.Builder.Crowded.{build_financial_state-stuck}
use buy_or_wait_ai_advisor.Engine.Facade.{
  BuyOrWaitEngine, buy_or_wait_engine, evaluate, evaluate-buy,
}
use buy_or_wait_ai_advisor.Engine.Safety.{PaysSafely}
use buy_or_wait_ai_advisor.Tests.Runs.{engine_run}
use buy_or_wait_ai_advisor.Tests.Samples.{sample_purchase, sample_state}
use buy_or_wait_ai_advisor.Decision.SafeAmount.{compute_safe_amount}
use buy_or_wait_ai_advisor.Ledger.Solvency.{IsSolvent}
use buy_or_wait_ai_advisor.Recurrence.{
  RecurringStream, infer_recurring_streams, none_recurring, project_next_occurrences,
}
use buy_or_wait_ai_advisor.Recurrence.Occurrences.{project_next_occurrences-within}

abbrev sample_profile : FinancialProfileInput
sample_profile = record {
  user_id = "u";
  home_currency = "USD";
  current_available_balance = units 2000;
  minimum_balance_to_keep = units 200;
  financial_priorities = [];
  protected_categories = [];
  reducible_categories = [];
  stoppable_categories = [];
  payment_methods = "full_payment" ∷ [];
  payment_methods_accepted = "full_payment" ∷ [];
  max_installment_months = none;
}

abbrev event_at : String → String → String → String → Date → Money → CashflowEventInput
event_at id category direction status day amount = record {
  event_id = id;
  user_id = "u";
  event_type = "transaction";
  description = category;
  category = category;
  direction = direction;
  amount = amount;
  currency = "USD";
  status = status;
  settlement_date = some day;
  event_date = some day;
  flexibility = "fixed";
  minimum_allowed_amount = none;
  linked_event_id = none;
}

-- Two rents thirty days apart, a salary a month and some groceries.
abbrev sample_events : List CashflowEventInput
sample_events =
    event_at "r1" "rent" "debit" "settled" 940 (units 100)
    ∷ event_at "r2" "rent" "debit" "settled" 970 (units 100)
    ∷ event_at "s1" "salary" "credit" "settled" 945 (units 500)
    ∷ event_at "s2" "salary" "credit" "settled" 975 (units 500)
    ∷ event_at "g1" "groceries" "debit" "settled" 990 (units 900)
    ∷ []

unfoldable state_run : ℕ
unfolding build_financial_state insert lookup ◌+ℤ◌ ◌-ℤ◌ ◌*ℤ◌ negate abs_ℤ divide_signed
    divide_half_even resolve_events project_variable_category project_salary fixed_items civil_of
    date_of days_before_year days_before_month month_start days_in_month sort_by
state_run = 0

abbrev built : Result FinancialState
built = build_financial_state 1000 ("rent" ∷ []) [] sample_profile sample_events 1000 "r" none true

built_debits : map_ok (λ s. length s.recurring_debits) built ≡ ok 3
unfolding state_run
built_debits = refl

built_income :
    map_ok (λ s. map ScheduledItem.date s.recurring_income) built ≡ ok (1006 ∷ 1037 ∷ 1067 ∷ [])
unfolding state_run
built_income = refl

abbrev or_state : Result FinancialState → FinancialState
or_state (ok state) = state
or_state (err e) = sample_state

build_financial_state-AllAhead_example : AllAhead 1000 (or_state built)
unfolding state_run
build_financial_state-AllAhead_example =
    build_financial_state-AllAhead 1000 ("rent" ∷ []) [] sample_profile sample_events 1000 "r" none
      true refl

build_financial_state-safe_amount_example :
    (units 300 ≤ℤ compute_safe_amount (or_state built) (units 900) [])
    ↔ IsSolvent (units 200) (or_state built) [] ((1000, units 300) ∷ [])
unfolding state_run
build_financial_state-safe_amount_example =
    build_financial_state-safe_amount 1000 ("rent" ∷ []) [] sample_profile sample_events 1000 "r"
      none true [] (units 900) (units 300) refl (omega arith) (omega arith)

build_financial_state-Returns_example :
    (state : FinancialState) × (build_financial_state 1000 fixed_categories variable_categories
        sample_profile sample_events 1000 "r" none true
      ≡ ok state)
unfolding state_run
build_financial_state-Returns_example =
    build_financial_state-Returns 1000 fixed_categories variable_categories sample_profile
      sample_events 1000 "r" none true (omega arith, tt)

-- Two salaries a day on three days.
abbrev crowded_events : List CashflowEventInput
crowded_events =
    event_at "s1" "salary" "credit" "settled" 995 (units 50)
    ∷ event_at "s2" "salary" "credit" "settled" 995 (units 50)
    ∷ event_at "s3" "salary" "credit" "settled" 996 (units 50)
    ∷ event_at "s4" "salary" "credit" "settled" 996 (units 50)
    ∷ event_at "s5" "salary" "credit" "settled" 997 (units 50)
    ∷ event_at "s6" "salary" "credit" "settled" 997 (units 50)
    ∷ []

build_financial_state-stuck_example :
    (build_financial_state 1000 fixed_categories variable_categories sample_profile crowded_events
        1000 "r" none true
      ≡ err out_of_fuel)
    × ((rounds : ℕ) (test : Date → Bool) (cur : Date)
        → cur ≤ 1090
        → step_loop rounds test 1090 0 cur ≡ err out_of_fuel)
unfolding state_run
build_financial_state-stuck_example =
    build_financial_state-stuck 1000 fixed_categories variable_categories sample_profile
      crowded_events 1000 "r" none true
      (omega arith, refl, omega arith, omega arith, refl, omega arith)

-- A pending payment and the record of its settlement.
abbrev pending_event : CashflowEventInput
pending_event = event_at "p1" "dining" "debit" "pending" 990 (units 40)

abbrev settled_event : CashflowEventInput
settled_event = record (event_at "p2" "dining" "debit" "settled" 992 (units 40)) {
  linked_event_id = some "p1";
}

resolve_events-superseded_example :
    All
      (λ ev. ¬ (ev.event_id ≡ "p1"))
      (resolve_events 1000 (pending_event ∷ settled_event ∷ []) "USD" none)
resolve_events-superseded_example =
    resolve_events-superseded 1000 (pending_event ∷ settled_event ∷ []) "USD" none settled_event
      pending_event (inr (inl refl))
      (
        inl refl,
        (λ _. refl, (λ same. absurd (false≢true ((string_eq.beq_iff "p2" "p1").1 same)), tt)),
      )
      (
        refl,
        λ same. absurd (false≢true ((string_eq.beq_iff "p1" "").1 same)),
        inr (inr (refl, refl)),
      )

abbrev early_purchase : PurchaseProposal
early_purchase = record sample_purchase { request_date = 1000; desired_completion_date = 1030 }

abbrev sample_engine : BuyOrWaitEngine
sample_engine = buy_or_wait_engine none none none

evaluate-buy_example :
    (state : FinancialState) × (build_financial_state 1000
        ("rent" ∷ [])
        []
        sample_profile
        sample_events
        1000
        "r"
        (some sample_engine.fx)
        true
      ≡ ok state)
    × PaysSafely state early_purchase [] 1000
    × (units 300 ≤ℤ compute_safe_amount state (units 300) [])
unfolding state_run engine_run buy_or_wait_engine evaluate
evaluate-buy_example =
    evaluate-buy 1000 ("rent" ∷ []) [] sample_engine sample_profile sample_events early_purchase
      refl refl (omega arith)

-- The rent of the sample, as a stream with its next dates.
abbrev rent_events : List LifecycleEvent
rent_events = select (λ e. e.category == "rent") (resolve_events 1000 sample_events "USD" none)

abbrev no_stream : RecurringStream
no_stream = record {
  key = "";
  category = "";
  direction = "";
  recurrence_class = none_recurring;
  cadence_days = none;
  cadence_variance = none;
  usual_day_of_month = none;
  typical_amount = zero_money;
  amount_variance = none;
  last_date = none;
  event_ids = [];
  flexibility = "";
  minimum_allowed_amount = none;
  settled_amounts = [];
  settled_dates = [];
  aggregate_weekly = none;
  aggregate_monthly = none;
}

abbrev first_stream : List RecurringStream → RecurringStream
first_stream [] = no_stream
first_stream (stream ∷ streams) = stream

abbrev rent_stream : RecurringStream
rent_stream = first_stream (infer_recurring_streams rent_events 1000)

rent_dates : project_next_occurrences rent_stream 1000 1090 ≡ ok (1000 ∷ 1030 ∷ 1060 ∷ 1090 ∷ [])
unfolding state_run infer_recurring_streams project_next_occurrences
rent_dates = refl

project_next_occurrences-within_example :
    (dates : List Date) × (project_next_occurrences rent_stream 1000 1090 ≡ ok dates)
    × All (λ d. (1000 ≤ d) × (d ≤ 1090)) dates
project_next_occurrences-within_example = project_next_occurrences-within rent_stream 1000 1090
