-- ===== src/State/Builder/Total.antt =====
-- When the projections of buyorwait_engine/state/builder.py come to an end.
use buy_or_wait_ai_advisor.Common.{
  >>=-ok, All, Bool, Date, List, Money, Option, Result, String, [], arith, civil_of,
  civil_of-month_in, civil_of-year_pos, divide_half_even, false, flat_map_result, if◌then◌else◌,
  length, ltb, month_start-next_month, next_month, ok, refl, sort_by, suc, true, ℕ, ◌++◌, ◌+◌, ◌∙◌,
  ◌∷◌, ◌≡◌, ◌≤◌,
}
use buy_or_wait_ai_advisor.Domain.{
  CashflowEventInput, FinancialProfileInput, FinancialState, LifecycleEvent, ScheduledItem,
  forecast_horizon_days,
}
use buy_or_wait_ai_advisor.Currency.Fx.{FxEngine}
use buy_or_wait_ai_advisor.State.Resolve.{resolve_events}
use buy_or_wait_ai_advisor.State.Projections.{
  by_settlement, count_days, daily_rate_of, fixed_history, fuel_for, intervals, is_monthly,
  is_new_date, last_event, last_six, month_loop, most_common, project_fixed_category,
  project_fixed_last, project_fixed_recent, project_salary, project_salary_sorted,
  project_variable_category, project_variable_sorted, salary_dates, salary_history, settled_on,
  step_loop, sum_of, variable_history,
}
use buy_or_wait_ai_advisor.State.Projections.Loops.{
  Returns, Returns-map_ok, month_loop-Returns, step_loop-Returns,
}
use buy_or_wait_ai_advisor.State.Builder.{
  build_financial_state, dates_in, fixed_items, future_debits_of, future_income_of,
}

pub Returns-if :
    {A : Type 0} (b : Bool) (r s : Result A) → Returns r → Returns s → Returns (if b then r else s)
Returns-if true r s hr hs = hr
Returns-if false r s hr hs = hs

-- The months from that of a date on, or from the month after it.
months_from-Returns :
    (test : Date → Bool) (horizon_end d : Date) (dom : ℕ)
    → Returns (
        month_loop
          (fuel_for horizon_end)
          test
          horizon_end
          dom
          ((civil_of d).year, (civil_of d).month))
months_from-Returns test horizon_end d dom =
    let in_year = civil_of-month_in d in
    month_loop-Returns (suc horizon_end) test horizon_end dom (civil_of d).year (civil_of d).month
      (civil_of-year_pos d) in_year.0 in_year.1 (omega arith)

pub months_after-Returns :
    (test : Date → Bool) (horizon_end d : Date) (dom : ℕ)
    → Returns (
        month_loop
          (fuel_for horizon_end)
          test
          horizon_end
          dom
          (next_month ((civil_of d).year, (civil_of d).month)))
months_after-Returns test horizon_end d dom =
    let in_year = civil_of-month_in d in
    let (y, m) = next_month ((civil_of d).year, (civil_of d).month) in
    let (hy, lo, hi, _) =
      month_start-next_month (civil_of d).year (civil_of d).month (civil_of-year_pos d) in_year.0
        in_year.1 in
    month_loop-Returns (suc horizon_end) test horizon_end dom y m hy lo hi (omega arith)

project_fixed_last-Returns :
    (category : String) (as_of_date horizon_end : Date) (recent : List LifecycleEvent)
    → Returns (project_fixed_last category as_of_date horizon_end recent)
unfolding project_fixed_last project_fixed_recent
project_fixed_last-Returns category as_of_date horizon_end [] = ([], refl)
project_fixed_last-Returns category as_of_date horizon_end (first ∷ others) =
    Returns-if _ (ok []) _ ([], refl)
      (Returns-if _ _ (ok [])
        (Returns-map_ok _ _
          (months_from-Returns (λ dt. ltb as_of_date dt) horizon_end as_of_date _))
        ([], refl))

pub steps-Returns :
    (test : Date → Bool) (horizon_end : Date) (step cur : ℕ)
    → 1 ≤ step
    → Returns (step_loop (fuel_for horizon_end) test horizon_end step cur)
steps-Returns test horizon_end step cur h =
    step_loop-Returns (suc horizon_end) test horizon_end step cur h (omega arith)

project_variable_sorted-Returns :
    (category : String) (as_of_date horizon_end : Date) (use_daily_burn : Bool) (rate : Money)
    (sorted : List LifecycleEvent)
    → Returns (project_variable_sorted category as_of_date horizon_end use_daily_burn rate sorted)
unfolding project_variable_sorted
project_variable_sorted-Returns category as_of_date horizon_end use_daily_burn rate [] = ([], refl)
project_variable_sorted-Returns category as_of_date horizon_end use_daily_burn rate
      (first ∷ others) =
    Returns-if _ (ok []) _ ([], refl)
      (Returns-if use_daily_burn _ _
        (Returns-map_ok _ _
          (steps-Returns (λ _. true) horizon_end 1 (as_of_date + 1) (omega arith)))
        (Returns-map_ok _ _
          (steps-Returns (λ _. true) horizon_end 7 (as_of_date + 7) (omega arith))))

pub flat_map_result-Returns :
    {A B : Type 0} (f : A → Result (List B)) (xs : List A)
    → ((x : A) → Returns (f x))
    → Returns (flat_map_result f xs)
flat_map_result-Returns f [] h = ([], refl)
flat_map_result-Returns f (x ∷ xs) h =
    let (ys, e) = h x in
    let (zs, k) = flat_map_result-Returns f xs h in
    (ys ++ zs, >>=-ok (f x) _ e ∙ >>=-ok (flat_map_result f xs) _ k)

-- The salaries that are looked at fall on different days.
abbrev pub OnDifferentDays : List LifecycleEvent → Type 0
OnDifferentDays salaries = All (λ n. 1 ≤ n) (intervals (last_six salaries))

sum_of-le : (gaps : List ℕ) → All (λ n. 1 ≤ n) gaps → length gaps ≤ sum_of gaps
sum_of-le [] all = omega arith
sum_of-le (n ∷ gaps) all = omega (arith, all.0, sum_of-le gaps all.1)

divide_half_even_pos : (a b : ℕ) → 1 ≤ b → b ≤ a → 1 ≤ divide_half_even a b
unfolding divide_half_even
divide_half_even_pos a b h le = grind arith

salary_dates-Returns :
    (dom : ℕ × ℕ) (gaps : List ℕ) (count : ℕ) (last_date : Date) (test : Date → Bool)
    (horizon_end : Date)
    → All (λ n. 1 ≤ n) gaps
    → Returns (salary_dates dom gaps count last_date test horizon_end)
unfolding salary_dates
salary_dates-Returns (dom, dom_freq) [] count last_date test horizon_end all =
    months_after-Returns test horizon_end last_date dom
salary_dates-Returns (dom, dom_freq) (n ∷ gaps) count last_date test horizon_end all =
    let total = sum_of (n ∷ gaps) in
    let step = divide_half_even total (length (n ∷ gaps)) in
    Returns-if (is_monthly (n ∷ gaps) dom_freq count) _ _
      (months_after-Returns test horizon_end last_date dom)
      (steps-Returns test horizon_end step (last_date + step)
        (divide_half_even_pos total (length (n ∷ gaps)) (omega arith) (sum_of-le (n ∷ gaps) all)))

project_salary_sorted-Returns :
    (sorted : List LifecycleEvent) (as_of_date horizon_end : Date) (scheduled_dates : List Date)
    → OnDifferentDays sorted
    → Returns (project_salary_sorted sorted as_of_date horizon_end scheduled_dates)
unfolding project_salary_sorted
project_salary_sorted-Returns [] as_of_date horizon_end scheduled_dates apart = ([], refl)
project_salary_sorted-Returns (first ∷ others) as_of_date horizon_end scheduled_dates apart =
    let recent = last_six (first ∷ others) in
    Returns-if _ (ok []) _ ([], refl)
      (Returns-map_ok _ _ (
        salary_dates-Returns (most_common (0, 0) (count_days [] recent)) (intervals recent)
          (length recent) (settled_on (last_event first others))
          (is_new_date as_of_date scheduled_dates) horizon_end apart))

pub fixed_items-Returns :
    (resolved : List LifecycleEvent) (debits : List ScheduledItem) (as_of_date horizon_end : Date)
    (cat : String)
    → Returns (fixed_items resolved debits as_of_date horizon_end cat)
unfolding fixed_items project_fixed_category
fixed_items-Returns resolved debits as_of_date horizon_end cat =
    Returns-map_ok _ _ (
      project_fixed_last-Returns cat as_of_date horizon_end (fixed_history resolved cat as_of_date))

pub project_variable_category-Returns :
    (resolved : List LifecycleEvent) (cat : String) (as_of_date horizon_end : Date)
    (use_daily_burn : Bool)
    → Returns (project_variable_category resolved cat as_of_date horizon_end use_daily_burn)
unfolding project_variable_category
project_variable_category-Returns resolved cat as_of_date horizon_end use_daily_burn =
    let cat_events = variable_history resolved cat as_of_date in
    project_variable_sorted-Returns cat as_of_date horizon_end use_daily_burn
      (daily_rate_of cat_events) (sort_by by_settlement cat_events)

project_salary-Returns :
    (resolved : List LifecycleEvent) (as_of_date horizon_end : Date) (scheduled_dates : List Date)
    → OnDifferentDays (salary_history resolved)
    → Returns (project_salary resolved as_of_date horizon_end scheduled_dates)
unfolding project_salary
project_salary-Returns resolved as_of_date horizon_end scheduled_dates apart =
    project_salary_sorted-Returns (salary_history resolved) as_of_date horizon_end scheduled_dates
      apart

-- The state is built, for every order of the categories, where the last six salaries fall on different
-- days.
pub build_financial_state-Returns :
    (today : Date) (fixed_order variable_order : List String) (profile : FinancialProfileInput)
    (events : List CashflowEventInput) (as_of_date : Date) (request_id : String)
    (fx : Option FxEngine) (use_daily_burn : Bool)
    → OnDifferentDays (salary_history (resolve_events today events profile.home_currency fx))
    → (state : FinancialState) × (build_financial_state today fixed_order variable_order profile
          events as_of_date request_id fx use_daily_burn
        ≡ ok state)
unfolding build_financial_state
build_financial_state-Returns today fixed_order variable_order profile events as_of_date request_id
      fx use_daily_burn apart =
    let horizon_end = as_of_date + forecast_horizon_days in
    let resolved = resolve_events today events profile.home_currency fx in
    let debits = future_debits_of resolved as_of_date horizon_end in
    let income = dates_in "salary" (future_income_of resolved as_of_date horizon_end) in
    let (fixed, e₁) =
      flat_map_result-Returns (fixed_items resolved debits as_of_date horizon_end) fixed_order
        (λ cat. fixed_items-Returns resolved debits as_of_date horizon_end cat) in
    let (variable, e₂) =
      flat_map_result-Returns
        (λ cat. project_variable_category resolved cat as_of_date horizon_end use_daily_burn)
        variable_order
        (λ cat.
          project_variable_category-Returns resolved cat as_of_date horizon_end use_daily_burn) in
    let (salary, e₃) = project_salary-Returns resolved as_of_date horizon_end income apart in
    (_, >>=-ok _ _ e₁ ∙ >>=-ok _ _ e₂ ∙ >>=-ok _ _ e₃)
