-- ===== src/Decision/Candidates/Totals.antt =====
-- What an instalment plan pays in all: `_option_plan` of buyorwait_engine/decision/candidates.py.
use buy_or_wait_ai_advisor.Common.{
  Bool-cases, Date, Money, [], ap, arith, false, inl, inr, insert, int_laws, lookup, lookup_or,
  nat_eq, neg_part, pair_eq, pos_part, some, string_eq, suc, sym, true, zero, zero_money, ℕ, ◌+ℤ◌,
  ◌+◌, ◌==◌, ◌∙◌, ◌∷◌, ◌≡◌,
}
use buy_or_wait_ai_advisor.Domain.{PaymentOptionInput, PaymentPlan}
use buy_or_wait_ai_advisor.Decision.Candidates.{days_or_zero, option_plan, option_plan_loop}

-- The sum of the payments.
abbrev pub plan_total : PaymentPlan → Money
plan_total [] = zero_money
plan_total ((d, amt) ∷ plan) = amt +ℤ plan_total plan

-- `n` times an amount.
abbrev pub times : ℕ → Money → Money
times zero amt = zero_money
times (suc n) amt = amt +ℤ times n amt

add_none : (a : Money) → a ≡ a +ℤ zero_money
add_none a = omega int_laws

lone : (a : Money) → (a +ℤ zero_money) +ℤ zero_money ≡ zero_money +ℤ a
lone a = omega int_laws

none_before : (a : Money) → zero_money +ℤ a ≡ a
none_before a = omega int_laws

swap_first : (a b c : Money) → (a +ℤ b) +ℤ c ≡ (c +ℤ b) +ℤ a
swap_first a b c = omega int_laws

assoc : (a b c : Money) → (a +ℤ b) +ℤ c ≡ a +ℤ (b +ℤ c)
assoc a b c = omega int_laws

add_both :
    (a new old there amt : Money)
    → new +ℤ there ≡ old +ℤ amt
    → (a +ℤ new) +ℤ there ≡ (a +ℤ old) +ℤ amt
add_both a new old there amt h = assoc a new there ∙ ap (λ z. a +ℤ z) h ∙ sym (assoc a old amt)

cancel_there : (new old there amt : Money) → new +ℤ there ≡ old +ℤ (there +ℤ amt) → new ≡ old +ℤ amt
cancel_there new old there amt h = omega (int_laws, ap pos_part h, ap neg_part h)

lookup_or-head :
    (d t : Date) (paid : Money) (plan : PaymentPlan)
    → (t == d) ≡ true
    → lookup_or d zero_money ((t, paid) ∷ plan) ≡ paid
unfolding lookup_or lookup
lookup_or-head d t paid plan h = ground arith

lookup_or-tail :
    (d t : Date) (paid : Money) (plan : PaymentPlan)
    → (t == d) ≡ false
    → lookup_or d zero_money ((t, paid) ∷ plan) ≡ lookup_or d zero_money plan
unfolding lookup_or lookup
lookup_or-tail d t paid plan h = ground arith

-- A payment that is written to a day replaces what was there.
plan_total-insert :
    (d : Date) (amt : Money) (plan : PaymentPlan)
    → plan_total (insert d amt plan) +ℤ lookup_or d zero_money plan ≡ plan_total plan +ℤ amt
unfolding insert
plan_total-insert d amt [] = unfold lookup_or in lone amt
plan_total-insert d amt ((t, paid) ∷ plan) = elim (Bool-cases (t == d)) [
  | inl same ↦ rw (lookup_or-head d t paid plan same, same) (swap_first amt (plan_total plan) paid)
  | inr other ↦
      rw (lookup_or-tail d t paid plan other, other)
        (add_both paid _ (plan_total plan) _ amt (plan_total-insert d amt plan))
]

-- Adding to a day's payment adds as much to the sum.
plan_total-add :
    (d : Date) (amt : Money) (plan : PaymentPlan)
    → plan_total (insert d (lookup_or d zero_money plan +ℤ amt) plan) ≡ plan_total plan +ℤ amt
plan_total-add d amt plan =
    let there = lookup_or d zero_money plan in
    cancel_there (plan_total (insert d (there +ℤ amt) plan)) (plan_total plan) there amt
      (plan_total-insert d (there +ℤ amt) plan)

plan_total-loop :
    (left : ℕ) (d freq : ℕ) (amt : Money) (plan : PaymentPlan)
    → plan_total (option_plan_loop left d freq amt plan) ≡ plan_total plan +ℤ times left amt
unfolding option_plan_loop
plan_total-loop zero d freq amt plan = add_none (plan_total plan)
plan_total-loop (suc left) d freq amt plan =
    let next = insert d (lookup_or d zero_money plan +ℤ amt) plan in
    plan_total-loop left (d + freq) freq amt next
    ∙ (ap (λ z. z +ℤ times left amt) (plan_total-add d amt plan)
        ∙ assoc (plan_total plan) amt (times left amt))

-- The payments of an option with a first date are its number of payments times its instalment.
pub plan_total-option_plan :
    (option : PaymentOptionInput) (first : Date)
    → option.first_payment_date ≡ some first
    → plan_total (option_plan option) ≡ times option.number_of_payments option.installment_amount
unfolding option_plan
plan_total-option_plan option first h = rw h (
    plan_total-loop option.number_of_payments first (days_or_zero option.payment_frequency_days)
      option.installment_amount []
    ∙ none_before (times option.number_of_payments option.installment_amount))
