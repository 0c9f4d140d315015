-- ===== src/Ledger/Maps.antt =====
-- The daily maps of `_build_daily_maps` (buyorwait_engine/forecast/ledger.py) against sums over the
-- items of a day.
use buy_or_wait_ai_advisor.Common.{
  Date, List, Money, Option, Option-cases, [], abs_ℤ, arith, if◌then◌else◌, inl, inr, insert,
  int_laws, lookup-insert, lookup_or, nat_eq, string_eq, ◌+ℤ◌, ◌==◌, ◌∷◌, ◌≡◌,
}
use buy_or_wait_ai_advisor.Ledger.Daily.{
  DayMap, add_credit, add_debit, add_debits, add_income, add_payments, day_total, flows_of,
  future_debit_amount, recurring_debit_amount,
}
use buy_or_wait_ai_advisor.Ledger.Projection.{debits_on, gain, income_on, on_day, payments_on}
use buy_or_wait_ai_advisor.Domain.{FinancialState, PaymentPlan, ScheduledItem, SpendingChanges}

day_total-insert :
    (dt t : Date) (v : Money) (m : DayMap)
    → day_total (insert dt v m) t ≡ (if dt == t then v else day_total m t)
unfolding lookup_or
day_total-insert dt t v m = ground (arith, lookup-insert dt t v m)

pub day_total-add_debit :
    (dt t : Date) (amt : Money) (m : DayMap)
    → day_total (add_debit dt amt m) t ≡ day_total m t +ℤ on_day dt t (abs_ℤ amt)
unfolding add_debit
day_total-add_debit dt t amt m =
    grind (int_laws, day_total-insert dt t (day_total m dt +ℤ abs_ℤ amt) m)

pub day_total-add_credit :
    (dt t : Date) (amt : Money) (m : DayMap)
    → day_total (add_credit dt amt m) t ≡ day_total m t +ℤ on_day dt t (gain amt)
unfolding add_credit
day_total-add_credit dt t amt m = grind (int_laws, day_total-insert dt t (day_total m dt +ℤ amt) m)

pub day_total-add_debits :
    (amount_of : ScheduledItem → Option Money) (items : List ScheduledItem) (t : Date) (m : DayMap)
    → day_total (add_debits amount_of items m) t ≡ day_total m t +ℤ debits_on amount_of items t
unfolding add_debits
day_total-add_debits amount_of [] t m = omega int_laws
day_total-add_debits amount_of (item ∷ items) t m = elim (Option-cases (amount_of item)) [
  | inl stopped ↦ rw (stopped, day_total-add_debits amount_of items t m) (omega int_laws)
  | inr (amt, e) ↦
      rw
        (
          e,
          day_total-add_debits amount_of items t (add_debit item.date amt m),
          day_total-add_debit item.date t amt m,
        )
        (omega int_laws)
]

pub day_total-add_income :
    (items : List ScheduledItem) (t : Date) (m : DayMap)
    → day_total (add_income items m) t ≡ day_total m t +ℤ income_on items t
unfolding add_income
day_total-add_income [] t m = omega int_laws
day_total-add_income (item ∷ items) t m =
    rw
      (
        day_total-add_income items t (add_credit item.date item.amount m),
        day_total-add_credit item.date t item.amount m,
      )
      (omega int_laws)

pub day_total-add_payments :
    (plan : PaymentPlan) (t : Date) (m : DayMap)
    → day_total (add_payments plan m) t ≡ day_total m t +ℤ payments_on plan t
unfolding add_payments
day_total-add_payments [] t m = omega int_laws
day_total-add_payments ((dt, amt) ∷ plan) t m =
    grind (int_laws, day_total-add_payments plan t, day_total-add_debit dt t amt m)

-- What the day loop reads of the maps: the day's credits, and its debits with the payments on top.
pub credits-flows :
    (state : FinancialState) (changes : SpendingChanges) (plan : PaymentPlan) (t : Date)
    → (flows_of state changes plan).credits t
      ≡ income_on state.future_income t +ℤ income_on state.recurring_income t
unfolding flows_of
credits-flows state changes plan t =
    rw
      (
        day_total-add_income state.recurring_income t (add_income state.future_income []),
        day_total-add_income state.future_income t [],
      )
      (unfold lookup_or in omega int_laws)

pub debits-flows :
    (state : FinancialState) (changes : SpendingChanges) (plan : PaymentPlan) (t : Date)
    → (flows_of state changes plan).debits t
      ≡ debits_on (future_debit_amount changes) state.future_debits t
        +ℤ debits_on (recurring_debit_amount changes) state.recurring_debits t
        +ℤ payments_on plan t
unfolding flows_of
debits-flows state changes plan t =
    let future = add_debits (future_debit_amount changes) state.future_debits [] in
    let all = add_debits (recurring_debit_amount changes) state.recurring_debits future in
    rw
      (
        day_total-add_payments plan t all,
        day_total-add_debits (recurring_debit_amount changes) state.recurring_debits t future,
        day_total-add_debits (future_debit_amount changes) state.future_debits t [],
      )
      (unfold lookup_or in omega int_laws)
