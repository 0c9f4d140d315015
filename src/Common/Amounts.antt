-- ===== src/Common/Amounts.antt =====
-- Amounts and dates. An amount is a `Decimal` as a whole number of ticks of 10^-8, on which sums,
-- differences and comparisons are exact; a date is its `toordinal()`, so `timedelta(days=n)` is `+ n`.
use Prim.Native.Nat.{ℕ, ◌+◌, ◌*◌, ◌/◌, ◌%◌}
use mathlib.Core.Bool.{Bool}
use buy_or_wait_ai_advisor.Common.Tests.{ltb, if◌then◌else◌}
use buy_or_wait_ai_advisor.Common.Int.{ℤ, pos, sub_ℕ, pos_part, neg_part}

abbrev pub Money : Type 0
Money = ℤ

abbrev pub Date : Type 0
Date = ℕ

-- What `Decimal(s)` returns: a number, an infinity (below zero for `true`), or a NaN (signalling for
-- `true`).
pub data Decimal : Type 0 where
  finite : Money → Decimal
  infinite : Bool → Decimal
  nan : Bool → Decimal

abbrev pub zero_money : Money
zero_money = pos 0

abbrev pub ticks_per_unit : ℕ
ticks_per_unit = 100_000_000

-- `Decimal('0.01')`
abbrev pub cent : Money
cent = pos 1_000_000

-- A whole number of currency units.
abbrev pub units : ℕ → Money
units n = pos (n * 100_000_000)

-- `a / b` to the nearest whole number, a tie to the even one: the rounding of `quantize`.
unfoldable pub divide_half_even : ℕ → ℕ → ℕ
divide_half_even a b =
    let q = a / b in
    let r = a % b in if ltb (2 * r) b then q else if ltb b (2 * r) then q + 1 else q + q % 2

-- The same with a sign, which `quantize` rounds by magnitude.
unfoldable pub divide_signed : ℤ → ℕ → ℤ
divide_signed a b = sub_ℕ (divide_half_even (pos_part a) b) (divide_half_even (neg_part a) b)
