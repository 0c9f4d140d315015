-- ===== src/State/Builder/Ahead.antt =====
-- The items of a built state lie after the request date and within the horizon.
use mathlib.Core.Path.{subst}
use buy_or_wait_ai_advisor.Common.{
  &&-true, >>=-eq-ok, All, All-append, All-map, All-of-select, All-of_AllOk, All-select, AllOk,
  AllOk-flat_map_result, AllOk-imp, Bool, Date, List, Money, Option, Result, String, [], arith,
  civil_of, contains, divide_half_even, err, false, if◌then◌else◌, length, ltb, map, map_ok, nat_eq,
  next_month, none, not, ok, ok-injective, pair_eq, refl, select, some, sort_by, string_eq, true, ℕ,
  ◌&&◌, ◌+◌, ◌<◌, ◌∷◌, ◌≡◌, ◌≤◌,
}
use buy_or_wait_ai_advisor.Domain.{
  CashType, CashflowEventInput, FinancialProfileInput, FinancialState, LifecycleEvent,
  ScheduledItem, forecast_horizon_days,
}
use buy_or_wait_ai_advisor.State.Projections.{
  by_settlement, count_days, daily_rate_of, fixed_history, fuel_for, intervals, is_confirmed_income,
  is_monthly, is_new_date, last_event, last_six, most_common, project_fixed_category,
  project_fixed_last, project_fixed_recent, project_salary, project_salary_sorted,
  project_variable_category, project_variable_sorted, salary_dates, salary_history, salary_on,
  settled_on, step_loop, sum_of, typical_salary, variable_history,
}
use buy_or_wait_ai_advisor.State.Projections.Loops.{
  AllOk-month_loop, AllOk-step_loop, IsLoopDate, IsStepDate,
}
use buy_or_wait_ai_advisor.State.Builder.{
  build_financial_state, dates_in, fixed_items, future_debits_of, future_income_of, is_ahead,
  is_future_debit, scheduled_debit, scheduled_income,
}
use buy_or_wait_ai_advisor.Currency.Fx.{FxEngine}
use buy_or_wait_ai_advisor.State.Resolve.{resolve_events}

abbrev pub IsAhead : Date → Date → ScheduledItem → Type 0
IsAhead as_of_date horizon_end item = (as_of_date < item.date) × (item.date ≤ horizon_end)

-- The dates of a loop, made into items.
AllOk-map :
    (P : Date → Type 0) (Q : ScheduledItem → Type 0) (make : Date → ScheduledItem)
    (r : Result (List Date))
    → ((d : Date) → P d → Q (make d))
    → AllOk P r
    → AllOk Q (map_ok (map make) r)
AllOk-map P Q make (ok dates) f all = All-map P Q make dates f all
AllOk-map P Q make (err e) f all = tt

is_new_date-lt :
    (as_of_date d : Date) (scheduled_dates : List Date)
    → is_new_date as_of_date scheduled_dates d ≡ true
    → as_of_date < d
is_new_date-lt as_of_date d scheduled_dates h = ground arith

AllOk-if :
    {A : Type 0} (P : A → Type 0) (b : Bool) (r s : Result (List A))
    → AllOk P r
    → AllOk P s
    → AllOk P (if b then r else s)
AllOk-if P true r s hr hs = hr
AllOk-if P false r s hr hs = hs

module _ (as_of_date horizon_end : Date) where
  project_fixed_recent-IsAhead :
      (category : String) (first : LifecycleEvent) (others : List LifecycleEvent)
      → AllOk
          (IsAhead as_of_date horizon_end)
          (project_fixed_recent category as_of_date horizon_end first others)
  unfolding project_fixed_recent
  project_fixed_recent-IsAhead category first others =
      AllOk-if (IsAhead as_of_date horizon_end) _ _ (ok [])
        (AllOk-map (IsLoopDate (λ dt. ltb as_of_date dt) horizon_end)
          (IsAhead as_of_date horizon_end) _ _ (λ d loop. (ground (arith, loop.0), loop.1))
          (AllOk-month_loop (fuel_for horizon_end) (λ dt. ltb as_of_date dt) horizon_end _ _ _))
        tt

  project_fixed_last-IsAhead :
      (category : String) (recent : List LifecycleEvent)
      → AllOk
          (IsAhead as_of_date horizon_end)
          (project_fixed_last category as_of_date horizon_end recent)
  unfolding project_fixed_last
  project_fixed_last-IsAhead category [] = tt
  project_fixed_last-IsAhead category (first ∷ others) =
      AllOk-if (IsAhead as_of_date horizon_end) _ (ok []) _ tt
        (project_fixed_recent-IsAhead category first others)

  AllOk-select :
      (test : ScheduledItem → Bool) (r : Result (List ScheduledItem))
      → AllOk (IsAhead as_of_date horizon_end) r
      → AllOk (IsAhead as_of_date horizon_end) (map_ok (select test) r)
  AllOk-select test (ok items) all = All-of-select (IsAhead as_of_date horizon_end) test items all
  AllOk-select test (err e) all = tt

  fixed_items-IsAhead :
      (resolved : List LifecycleEvent) (future_debits : List ScheduledItem) (cat : String)
      → AllOk
          (IsAhead as_of_date horizon_end)
          (fixed_items resolved future_debits as_of_date horizon_end cat)
  unfolding fixed_items project_fixed_category
  fixed_items-IsAhead resolved future_debits cat =
      AllOk-select (λ item. not (contains item.date (dates_in cat future_debits)))
        (project_fixed_category resolved cat as_of_date horizon_end)
        (project_fixed_last-IsAhead cat (fixed_history resolved cat as_of_date))

  -- The dates of the steps from a later day on.
  step_items-IsAhead :
      (make : Date → ScheduledItem) (step : ℕ)
      → ((d : Date) → (make d).date ≡ d)
      → 1 ≤ step
      → AllOk (IsAhead as_of_date horizon_end) (
          map_ok
            (map make)
            (step_loop (fuel_for horizon_end) (λ _. true) horizon_end step (as_of_date + step)))
  step_items-IsAhead make step dated h =
      AllOk-map (IsStepDate (as_of_date + step) (λ _. true) horizon_end)
        (IsAhead as_of_date horizon_end) make _
        (λ d loop. rw (dated d) (let first = loop.0 in omega arith, loop.1.1))
        (AllOk-step_loop (fuel_for horizon_end) (λ _. true) horizon_end step (as_of_date + step)
          (as_of_date + step) (omega arith))

  project_variable_sorted-IsAhead :
      (category : String) (use_daily_burn : Bool) (rate : Money) (sorted : List LifecycleEvent)
      → AllOk
          (IsAhead as_of_date horizon_end)
          (project_variable_sorted category as_of_date horizon_end use_daily_burn rate sorted)
  unfolding project_variable_sorted
  project_variable_sorted-IsAhead category use_daily_burn rate [] = tt
  project_variable_sorted-IsAhead category use_daily_burn rate (first ∷ others) =
      AllOk-if (IsAhead as_of_date horizon_end) _ (ok []) _ tt (
        AllOk-if (IsAhead as_of_date horizon_end) use_daily_burn _ _
          (step_items-IsAhead _ 1 (λ d. refl) (omega arith))
          (step_items-IsAhead _ 7 (λ d. refl) (omega arith)))

  project_variable_category-IsAhead :
      (events : List LifecycleEvent) (category : String) (use_daily_burn : Bool)
      → AllOk
          (IsAhead as_of_date horizon_end)
          (project_variable_category events category as_of_date horizon_end use_daily_burn)
  unfolding project_variable_category
  project_variable_category-IsAhead events category use_daily_burn =
      let cat_events = variable_history events category as_of_date in
      project_variable_sorted-IsAhead category use_daily_burn (daily_rate_of cat_events)
        (sort_by by_settlement cat_events)

  salary_dates-IsLoopDate :
      (dom : ℕ × ℕ) (gaps : List ℕ) (count : ℕ) (last_date : Date) (test : Date → Bool)
      → AllOk (IsLoopDate test horizon_end) (salary_dates dom gaps count last_date test horizon_end)
  unfolding salary_dates
  salary_dates-IsLoopDate (dom, dom_freq) gaps count last_date test =
      let start = civil_of last_date in
      let step = divide_half_even (sum_of gaps) (length gaps) in
      let (y, m) = next_month (start.year, start.month) in
      AllOk-if (IsLoopDate test horizon_end) (is_monthly gaps dom_freq count) _ _
        (AllOk-month_loop (fuel_for horizon_end) test horizon_end dom y m)
        (AllOk-imp (IsStepDate 0 test horizon_end) (IsLoopDate test horizon_end)
          (step_loop (fuel_for horizon_end) test horizon_end step (last_date + step))
          (λ d found. found.1)
          (AllOk-step_loop (fuel_for horizon_end) test horizon_end step 0 (last_date + step)
            (omega arith)))

  project_salary_sorted-IsAhead :
      (sorted : List LifecycleEvent) (scheduled_dates : List Date)
      → AllOk
          (IsAhead as_of_date horizon_end)
          (project_salary_sorted sorted as_of_date horizon_end scheduled_dates)
  unfolding project_salary_sorted
  project_salary_sorted-IsAhead [] scheduled_dates = tt
  project_salary_sorted-IsAhead (first ∷ others) scheduled_dates =
      let recent = last_six (first ∷ others) in
      let test = is_new_date as_of_date scheduled_dates in
      AllOk-if (IsAhead as_of_date horizon_end) _ (ok []) _ tt (
        AllOk-map (IsLoopDate test horizon_end) (IsAhead as_of_date horizon_end)
          (salary_on (typical_salary (first ∷ others) recent)) _
          (λ d loop. (is_new_date-lt as_of_date d scheduled_dates loop.0, loop.1))
          (salary_dates-IsLoopDate (most_common (0, 0) (count_days [] recent)) (intervals recent)
            (length recent) (settled_on (last_event first others)) test))

  project_salary-IsAhead :
      (events : List LifecycleEvent) (scheduled_dates : List Date)
      → AllOk
          (IsAhead as_of_date horizon_end)
          (project_salary events as_of_date horizon_end scheduled_dates)
  unfolding project_salary
  project_salary-IsAhead events scheduled_dates =
      project_salary_sorted-IsAhead (salary_history events) scheduled_dates

  scheduled-IsAhead :
      (kind : CashType → Bool) (make : LifecycleEvent → ScheduledItem)
      (resolved : List LifecycleEvent)
      → ((ev : LifecycleEvent) → (make ev).date ≡ settled_on ev)
      → All (IsAhead as_of_date horizon_end) (
          map make (
            select
              (λ ev. is_ahead as_of_date horizon_end ev.settlement_date && kind ev.cash_type)
              resolved))
  scheduled-IsAhead kind make resolved dated =
      let test = λ (ev : LifecycleEvent).
        is_ahead as_of_date horizon_end ev.settlement_date && kind ev.cash_type in
      All-map (λ ev. test ev ≡ true) (IsAhead as_of_date horizon_end) make (select test resolved)
        (λ ev passes.
          rw (dated ev) (is_ahead-lt ev.settlement_date (&&-true _ (kind ev.cash_type) passes).0))
        (All-select test resolved)
    where
      is_ahead-lt :
          (dt : Option Date)
          → is_ahead as_of_date horizon_end dt ≡ true
          → let d : Date = elim dt [ none ↦ 0 | some d ↦ d ] in (as_of_date < d) × (d ≤ horizon_end)
      is_ahead-lt none h = cc
      is_ahead-lt (some d) h = ground arith

-- What the decisions rely on.
abbrev pub AllAhead : Date → FinancialState → Type 0
AllAhead as_of_date state =
    let horizon_end = as_of_date + forecast_horizon_days in
    (state.request_date ≡ as_of_date)
    × All (IsAhead as_of_date horizon_end) state.future_debits
    × All (IsAhead as_of_date horizon_end) state.future_income
    × All (IsAhead as_of_date horizon_end) state.recurring_debits
    × All (IsAhead as_of_date horizon_end) state.recurring_income

-- Every item of a built state, scheduled or projected, is dated after the request date and by the end
-- of the horizon, whatever the order of the categories.
pub build_financial_state-AllAhead :
    (today : Date) (fixed_order variable_order : List String) (profile : FinancialProfileInput)
    (events : List CashflowEventInput) (as_of_date : Date) (request_id : String)
    (fx : Option FxEngine) (use_daily_burn : Bool) {state : FinancialState}
    → build_financial_state today fixed_order variable_order profile events as_of_date request_id fx
        use_daily_burn
      ≡ ok state
    → AllAhead as_of_date state
unfolding build_financial_state future_debits_of future_income_of
build_financial_state-AllAhead today fixed_order variable_order profile events as_of_date request_id
      fx use_daily_burn e =
    let horizon_end = as_of_date + forecast_horizon_days in
    let P = IsAhead as_of_date horizon_end in
    let resolved = resolve_events today events profile.home_currency fx in
    let debits = future_debits_of resolved as_of_date horizon_end in
    let income = dates_in "salary" (future_income_of resolved as_of_date horizon_end) in
    let (fixed, from_fixed, e₁) = >>=-eq-ok _ _ e in
    let (variable, from_variable, e₂) = >>=-eq-ok _ _ e₁ in
    let (salary, from_salary, e₃) = >>=-eq-ok _ _ e₂ in
    let all_fixed =
      All-of_AllOk P _
        (AllOk-flat_map_result P (fixed_items resolved debits as_of_date horizon_end) fixed_order
          (λ cat _. fixed_items-IsAhead as_of_date horizon_end resolved debits cat))
        from_fixed in
    let all_variable =
      All-of_AllOk P _
        (AllOk-flat_map_result P
          (λ cat. project_variable_category resolved cat as_of_date horizon_end use_daily_burn)
          variable_order
          (λ cat _.
            project_variable_category-IsAhead as_of_date horizon_end resolved cat use_daily_burn))
        from_variable in
    let all_salary =
      All-of_AllOk P _ (project_salary-IsAhead as_of_date horizon_end resolved income)
        from_salary in
    subst (AllAhead as_of_date) (ok-injective e₃) (
      refl,
      scheduled-IsAhead as_of_date horizon_end is_future_debit scheduled_debit resolved
          (λ ev. refl),
      scheduled-IsAhead as_of_date horizon_end is_confirmed_income scheduled_income resolved
          (λ ev. refl),
      All-append P fixed variable all_fixed all_variable,
      all_salary,
    )
