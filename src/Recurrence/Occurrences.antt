-- ===== src/Recurrence/Occurrences.antt =====
-- The loop of `project_next_occurrences` in buyorwait_engine/recurrence/cadence.py.
use buy_or_wait_ai_advisor.Common.{
  All, All-imp, All-of_AllOk, AllOk, AllOk-imp, Bool, Date, List, Option, Result, [], arith,
  civil_of, divide_half_even, eqb, false, if◌then◌else◌, leb, leb→le, next_month, none, not, ok,
  refl, some, true, ℕ, ◌+◌, ◌≡◌, ◌≤◌,
}
use buy_or_wait_ai_advisor.State.Projections.{fuel_for, month_loop, step_loop}
use buy_or_wait_ai_advisor.State.Projections.Loops.{
  AllOk-month_loop, AllOk-step_loop, IsLoopDate, IsStepDate, Returns,
}
use buy_or_wait_ai_advisor.State.Builder.Total.{months_after-Returns, steps-Returns}
use buy_or_wait_ai_advisor.Recurrence.{
  Fraction, RecurringStream, is_projected, occurrences_from, occurrences_of,
  project_next_occurrences,
}

-- The dates are returned, and lie in the window.
abbrev pub ReturnsWithin : Date → Date → Result (List Date) → Type 0
ReturnsWithin from_date to_date r =
    (dates : List Date) × (r ≡ ok dates) × All (λ d. (from_date ≤ d) × (d ≤ to_date)) dates

within :
    (from_date to_date : Date) (r : Result (List Date))
    → Returns r
    → AllOk (IsLoopDate (λ d. leb from_date d) to_date) r
    → ReturnsWithin from_date to_date r
within from_date to_date r (dates, e) all = (
  dates,
  e,
  All-imp (IsLoopDate (λ d. leb from_date d) to_date) (λ d. (from_date ≤ d) × (d ≤ to_date)) dates
      (λ d found. (leb→le from_date d found.0, found.1))
      (All-of_AllOk (IsLoopDate (λ d. leb from_date d) to_date) r all e),
)

steps-within :
    (from_date to_date : Date) (cadence cur : ℕ)
    → 1 ≤ cadence
    → ReturnsWithin from_date to_date
        (step_loop (fuel_for to_date) (λ d. leb from_date d) to_date cadence cur)
steps-within from_date to_date cadence cur h =
    let test = λ (d : Date). leb from_date d in
    within from_date to_date _ (steps-Returns test to_date cadence cur h) (
      AllOk-imp (IsStepDate 0 test to_date) (IsLoopDate test to_date)
        (step_loop (fuel_for to_date) test to_date cadence cur) (λ d found. found.1)
        (AllOk-step_loop (fuel_for to_date) test to_date cadence 0 cur (omega arith)))

months-within :
    (from_date to_date last_date : Date) (dom : ℕ)
    → ReturnsWithin from_date to_date (
        month_loop
          (fuel_for to_date)
          (λ d. leb from_date d)
          to_date
          dom
          (next_month ((civil_of last_date).year, (civil_of last_date).month)))
months-within from_date to_date last_date dom =
    let test = λ (d : Date). leb from_date d in
    let (y, m) = next_month ((civil_of last_date).year, (civil_of last_date).month) in
    within from_date to_date _ (months_after-Returns test to_date last_date dom)
      (AllOk-month_loop (fuel_for to_date) test to_date dom y m)

within-if :
    (from_date to_date : Date) (b : Bool) (r s : Result (List Date))
    → (b ≡ true → ReturnsWithin from_date to_date r)
    → (b ≡ false → ReturnsWithin from_date to_date s)
    → ReturnsWithin from_date to_date (if b then r else s)
within-if from_date to_date true r s hr hs = hr refl
within-if from_date to_date false r s hr hs = hs refl

occurrences_of-within :
    (dom : Option ℕ) (cadence_days : Fraction) (cadence : ℕ) (last_date from_date to_date : Date)
    → 1 ≤ cadence
    → ReturnsWithin from_date to_date
        (occurrences_of dom cadence_days cadence last_date from_date to_date)
unfolding occurrences_of
occurrences_of-within none cadence_days cadence last_date from_date to_date h =
    steps-within from_date to_date cadence (last_date + cadence) h
occurrences_of-within (some dom) cadence_days cadence last_date from_date to_date h =
    within-if from_date to_date _ _ _ (λ _. months-within from_date to_date last_date dom)
      (λ _. steps-within from_date to_date cadence (last_date + cadence) h)

guarded :
    (stream : RecurringStream) (from_date to_date : Date) (last_date : Option Date)
    (cadence_days : Option Fraction)
    → ReturnsWithin from_date to_date
        (occurrences_from stream.usual_day_of_month from_date to_date last_date cadence_days)
unfolding occurrences_from
guarded stream from_date to_date none cadence_days = ([], refl, tt)
guarded stream from_date to_date (some last_date) none = ([], refl, tt)
guarded stream from_date to_date (some last_date) (some cadence_days) =
    let cadence = divide_half_even cadence_days.0 cadence_days.1 in
    within-if from_date to_date (eqb cadence 0) (ok []) _ (λ _. ([], refl, tt))
      (λ moves.
        occurrences_of-within stream.usual_day_of_month cadence_days cadence last_date from_date
          to_date (ground (arith, moves)))

-- The occurrences of every stream are returned, for the loop ends whatever the cadence is, and each of
-- them lies between the two dates.
pub project_next_occurrences-within :
    (stream : RecurringStream) (from_date to_date : Date)
    → (dates : List Date) × (project_next_occurrences stream from_date to_date ≡ ok dates)
      × All (λ d. (from_date ≤ d) × (d ≤ to_date)) dates
unfolding project_next_occurrences
project_next_occurrences-within stream from_date to_date =
    within-if from_date to_date (not (is_projected stream.recurrence_class)) (ok []) _
      (λ _. ([], refl, tt))
      (λ _. guarded stream from_date to_date stream.last_date stream.cadence_days)
