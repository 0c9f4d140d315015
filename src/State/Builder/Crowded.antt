-- ===== src/State/Builder/Crowded.antt =====
-- Salaries that follow one another too closely: the loop of `_project_salary` in
-- buyorwait_engine/state/builder.py with `round(avg_interval)` equal to 0.
use buy_or_wait_ai_advisor.Common.{
  >>=-err, >>=-ok, Bool, Date, List, Option, String, [], ap, arith, divide_half_even, eqb, eqb-lt,
  err, false, length, ltb, ltb-le, map, map_ok, out_of_fuel, ℕ, ◌*◌, ◌+◌, ◌<◌, ◌∙◌, ◌∷◌, ◌≡◌, ◌≤◌,
}
use buy_or_wait_ai_advisor.Domain.{
  CashflowEventInput, FinancialProfileInput, LifecycleEvent, forecast_horizon_days,
  salary_termination_keywords,
}
use buy_or_wait_ai_advisor.State.Projections.{
  count_days, fuel_for, intervals, is_monthly, is_new_date, last_event, last_six, mentions,
  most_common, project_salary, project_salary_sorted, project_variable_category, salary_dates,
  salary_history, salary_on, settled_on, step_loop, sum_of, typical_salary,
}
use buy_or_wait_ai_advisor.State.Projections.Loops.{step_loop-stuck}
use native.Mathlib.Nat.{div-eq_of_lt, mod-eq_of_lt}
use buy_or_wait_ai_advisor.Currency.Fx.{FxEngine}
use buy_or_wait_ai_advisor.State.Resolve.{resolve_events}
use buy_or_wait_ai_advisor.State.Builder.{
  build_financial_state, dates_in, fixed_items, future_debits_of, future_income_of,
}
use buy_or_wait_ai_advisor.State.Builder.Total.{
  fixed_items-Returns, flat_map_result-Returns, project_variable_category-Returns,
}

-- The recent salaries are half a day apart on average, do not fall on one day of the month, and the last
-- one is within the horizon.
abbrev pub IsCrowded : Date → List LifecycleEvent → Type 0
IsCrowded horizon_end [] = ⊥
IsCrowded horizon_end (first ∷ others) =
    let recent = last_six (first ∷ others) in
    let gaps = intervals recent in
    let last_ev = last_event first others in
    (2 ≤ length (first ∷ others))
    × (mentions salary_termination_keywords last_ev.description ≡ false)
    × (1 ≤ sum_of gaps)
    × (2 * sum_of gaps ≤ length gaps)
    × (is_monthly gaps (most_common (0, 0) (count_days [] recent)).1 (length recent) ≡ false)
    × (settled_on last_ev ≤ horizon_end)

divide_half_even_zero : (a b : ℕ) → 1 ≤ a → 2 * a ≤ b → divide_half_even a b ≡ 0
unfolding divide_half_even
divide_half_even_zero a b h le =
    let less : a < b = omega arith in rw (div-eq_of_lt less, mod-eq_of_lt less) (ground arith)

salary_dates-stuck :
    (dom : ℕ × ℕ) (gaps : List ℕ) (count : ℕ) (last_date : Date) (test : Date → Bool)
    (horizon_end : Date)
    → 1 ≤ sum_of gaps
    → 2 * sum_of gaps ≤ length gaps
    → is_monthly gaps dom.1 count ≡ false
    → last_date ≤ horizon_end
    → salary_dates dom gaps count last_date test horizon_end ≡ err out_of_fuel
unfolding salary_dates
salary_dates-stuck (dom, dom_freq) gaps count last_date test horizon_end h le other within =
    let stays = divide_half_even_zero (sum_of gaps) (length gaps) h le in
    rw (other, stays)
      (step_loop-stuck (fuel_for horizon_end) test horizon_end (last_date + 0) (omega arith))

project_salary_sorted-stuck :
    (sorted : List LifecycleEvent) (as_of_date horizon_end : Date) (scheduled_dates : List Date)
    → IsCrowded horizon_end sorted
    → project_salary_sorted sorted as_of_date horizon_end scheduled_dates ≡ err out_of_fuel
unfolding project_salary_sorted
project_salary_sorted-stuck [] as_of_date horizon_end scheduled_dates crowded = absurd crowded
project_salary_sorted-stuck (first ∷ others) as_of_date horizon_end scheduled_dates
      (many, goes_on, some_gap, close, other, within) =
    let recent = last_six (first ∷ others) in
    let two : ltb (length (first ∷ others)) 2 ≡ false = ltb-le _ 2 many in
    let gap : eqb (sum_of (intervals recent)) 0 ≡ false = eqb-lt _ 0 some_gap in
    rw (two, goes_on, gap)
      (ap (map_ok (map (salary_on (typical_salary (first ∷ others) recent)))) (
        salary_dates-stuck (most_common (0, 0) (count_days [] recent)) (intervals recent)
          (length recent) (settled_on (last_event first others))
          (is_new_date as_of_date scheduled_dates) horizon_end some_gap close other within))

-- A state is never built, for any order of the categories, where the recent salaries are that close:
-- the code's loop adds no day to its date, so that no number of rounds ends it.
pub build_financial_state-stuck :
    (today : Date) (fixed_order variable_order : List String) (profile : FinancialProfileInput)
    (events : List CashflowEventInput) (as_of_date : Date) (request_id : String)
    (fx : Option FxEngine) (use_daily_burn : Bool)
    → IsCrowded
        (as_of_date + forecast_horizon_days)
        (salary_history (resolve_events today events profile.home_currency fx))
    → (build_financial_state today fixed_order variable_order profile events as_of_date request_id
          fx use_daily_burn
        ≡ err out_of_fuel)
      × ((rounds : ℕ) (test : Date → Bool) (cur : Date)
          → cur ≤ as_of_date + forecast_horizon_days
          → step_loop rounds test (as_of_date + forecast_horizon_days) 0 cur ≡ err out_of_fuel)
unfolding build_financial_state project_salary
build_financial_state-stuck today fixed_order variable_order profile events as_of_date request_id fx
      use_daily_burn crowded =
    let horizon_end = as_of_date + forecast_horizon_days in
    let resolved = resolve_events today events profile.home_currency fx in
    let debits = future_debits_of resolved as_of_date horizon_end in
    let income = dates_in "salary" (future_income_of resolved as_of_date horizon_end) in
    let (fixed, e₁) =
      flat_map_result-Returns (fixed_items resolved debits as_of_date horizon_end) fixed_order
        (λ cat. fixed_items-Returns resolved debits as_of_date horizon_end cat) in
    let (variable, e₂) =
      flat_map_result-Returns
        (λ cat. project_variable_category resolved cat as_of_date horizon_end use_daily_burn)
        variable_order
        (λ cat.
          project_variable_category-Returns resolved cat as_of_date horizon_end use_daily_burn) in
    let stuck =
      project_salary_sorted-stuck (salary_history resolved) as_of_date horizon_end income crowded in
    (
      >>=-ok _ _ e₁ ∙ >>=-ok _ _ e₂ ∙ >>=-err _ _ stuck,
      λ rounds test cur within. step_loop-stuck rounds test horizon_end cur within,
    )
