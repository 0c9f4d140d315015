-- ===== src/Ledger/Minimum.antt =====
-- The day loop of `build_ledger` (buyorwait_engine/forecast/ledger.py) against the projection: its
-- entries, and the minimum that it carries along.
use buy_or_wait_ai_advisor.Common.{
  Date, Money, ap, arith, get_elem?, if◌then◌else◌, int_laws, length, ltb_ℤ, refl, some, suc, zero,
  ℕ, ◌+ℤ◌, ◌+◌, ◌-ℤ◌, ◌<◌, ◌↔◌, ◌∙◌, ◌≡◌, ◌≤ℤ◌,
}
use buy_or_wait_ai_advisor.Ledger.Daily.{DayEntry, Flows, day_loop}
use buy_or_wait_ai_advisor.Ledger.Projection.{over_days}

-- The balance after `n` days from day `c` on, for an opening balance `b`.
abbrev pub balance_after : Flows → Money → Date → ℕ → Money
balance_after flows b c n = b +ℤ over_days flows.credits c n -ℤ over_days flows.debits c n

-- Carrying one day over into the balance.
balance_after-suc :
    (flows : Flows) (b : Money) (c : Date) (n : ℕ)
    → balance_after flows (b +ℤ flows.credits c -ℤ flows.debits c) (c + 1) n
      ≡ balance_after flows b c (suc n)
unfolding over_days
balance_after-suc flows b c n = omega int_laws

-- The update of the carried minimum takes the lower of the two.
le-lower : (k x m : Money) → (k ≤ℤ (if ltb_ℤ x m then x else m)) ↔ ((k ≤ℤ x) × (k ≤ℤ m))
le-lower k x m = ground arith

-- What holds today and on each of the next `n` days.
days-suc :
    (P : ℕ → Type 0) (n : ℕ) → P 0 → ((i : ℕ) → i < n → P (suc i)) → (i : ℕ) → i < suc n → P i
days-suc P n today later zero h = today
days-suc P n today later (suc i) h = later i (omega arith)

today_balance :
    (flows : Flows) (b : Money) (c : Date)
    → b +ℤ flows.credits c -ℤ flows.debits c ≡ balance_after flows b c 1
unfolding over_days
today_balance flows b c = omega int_laws

module _ (flows : Flows) where
  pub length-day_loop :
      (n : ℕ) (c : Date) (b m : Money) (d : Date) → length (day_loop flows n c b m d).0 ≡ n
  unfolding day_loop
  length-day_loop zero c b m d = refl
  length-day_loop (suc n) c b m d = ap suc (length-day_loop n (c + 1) _ _ _)

  -- The entry of a day: its date, and the balance at its close.
  pub get_elem?-day_loop :
      (n : ℕ) (c : Date) (b m : Money) (d : Date) (i : ℕ)
      → i < n
      → (e : DayEntry) × (get_elem? (day_loop flows n c b m d).0 i ≡ some e)
        × (e.dt ≡ c + i)
        × (e.opening ≡ balance_after flows b c i)
        × (e.closing ≡ balance_after flows b c (suc i))
  unfolding day_loop
  get_elem?-day_loop zero c b m d i h = absurd (omega arith)
  get_elem?-day_loop (suc n) c b m d zero h =
      (_, refl, omega arith, unfold over_days in omega int_laws, unfold over_days in omega int_laws)
  get_elem?-day_loop (suc n) c b m d (suc i) h =
      let (e, at, dated, opens, closes) =
        get_elem?-day_loop n (c + 1) (b +ℤ flows.credits c -ℤ flows.debits c) _ _ i (omega arith) in
      (
        e,
        at,
        omega arith,
        opens ∙ balance_after-suc flows b c i,
        closes ∙ balance_after-suc flows b c (suc i),
      )

  -- A floor is under the carried minimum exactly when it is under the minimum at the start and under
  -- the closing balance of every day.
  pub le-day_loop :
      (k : Money) (n : ℕ) (c : Date) (b m : Money) (d : Date)
      → k ≤ℤ (day_loop flows n c b m d).1
      → (k ≤ℤ m) × ((i : ℕ) → i < n → k ≤ℤ balance_after flows b c (suc i))
  unfolding day_loop
  le-day_loop k zero c b m d h = (h, λ i lt. absurd (omega arith))
  le-day_loop k (suc n) c b m d h =
      let closing = b +ℤ flows.credits c -ℤ flows.debits c in
      let (low, later) = le-day_loop k n (c + 1) closing _ _ h in
      let (today, before) = (le-lower k closing m).0 low in
      (
        before,
        days-suc (λ i. k ≤ℤ balance_after flows b c (suc i)) n
            (rw (today_balance flows b c) at today)
            (λ i lt. rw (balance_after-suc flows b c (suc i)) at (later i lt)),
      )

  pub day_loop-ge :
      (k : Money) (n : ℕ) (c : Date) (b m : Money) (d : Date)
      → k ≤ℤ m
      → ((i : ℕ) → i < n → k ≤ℤ balance_after flows b c (suc i))
      → k ≤ℤ (day_loop flows n c b m d).1
  unfolding day_loop
  day_loop-ge k zero c b m d h all = h
  day_loop-ge k (suc n) c b m d h all =
      let closing = b +ℤ flows.credits c -ℤ flows.debits c in
      day_loop-ge k n (c + 1) closing (if ltb_ℤ closing m then closing else m)
        (if ltb_ℤ closing m then c else d)
        ((le-lower k closing m).1 (rw (today_balance flows b c) (all 0 (omega arith)), h))
        (λ i lt. rw (balance_after-suc flows b c (suc i)) (all (suc i) (omega arith)))
