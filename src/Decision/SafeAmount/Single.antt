-- ===== src/Decision/SafeAmount/Single.antt =====
-- The projection under a plan of one payment: the balance falls by its amount from its day on.
use buy_or_wait_ai_advisor.Common.{
  Date, Money, [], arith, if◌then◌else◌, int_laws, leb, ltb, refl, suc, zero, zero_money, ℕ, ◌&&◌,
  ◌+◌, ◌-ℤ◌, ◌∷◌, ◌≡◌,
}
use buy_or_wait_ai_advisor.Domain.{FinancialState, SpendingChanges}
use buy_or_wait_ai_advisor.Ledger.Projection.{gain, over_days, payments_on, projected_balance}

pub over_days-single :
    (d : Date) (amt : Money) (c : Date) (n : ℕ)
    → over_days (payments_on ((d, amt) ∷ [])) c n
      ≡ (if leb c d && ltb d (c + n) then gain amt else zero_money)
unfolding over_days
over_days-single d amt c zero = grind arith
over_days-single d amt c (suc n) = grind (int_laws, over_days-single d amt (c + 1) n)

pub over_days-empty : (c : Date) (n : ℕ) → over_days (payments_on []) c n ≡ zero_money
unfolding over_days
over_days-empty c zero = refl
over_days-empty c (suc n) = rw (over_days-empty (c + 1) n) (omega int_laws)

module _ (state : FinancialState) (changes : SpendingChanges) where
  -- The projection with no payment.
  abbrev pub baseline : ℕ → Money
  baseline = projected_balance state changes []

  pub projected_single :
      (d : Date) (amt : Money) (i : ℕ)
      → projected_balance state changes ((d, amt) ∷ []) i
        ≡ baseline i
          -ℤ (if leb state.request_date d && leb d (state.request_date + i)
              then gain amt
              else zero_money)
  unfolding projected_balance
  projected_single d amt i =
      rw
        (
          over_days-single d amt state.request_date (suc i),
          over_days-empty state.request_date (suc i),
        )
        (grind int_laws)
