-- ===== src/Backend/Ingestion/Normalizer/Signs.antt =====
-- The sign of an amount against its direction: `resolve_amount_and_direction` of
-- backend/ingestion/normalizer.py.
use mathlib.Core.Path.{subst}
use buy_or_wait_ai_advisor.Common.{
  Bool, Bool-cases, Money, Option, Result, String, abs_parts, abs_ℤ, ap, arith, eqb_ℤ, err, false,
  if◌then◌else◌, inl, inr, invalid_operation, ltb_ℤ, map, nat_eq, negate, negate_parts, none, ok,
  pair_eq, refl, some, string_eq, true, upper, zero_money, ◌&&◌, ◌<ℤ◌, ◌==◌, ◌||◌, ◌≡◌, ◌≤ℤ◌, ◌⊎◌,
}
use buy_or_wait_ai_advisor.Backend.Ingestion.Models.{
  Amount, DialectInfo, ParsedRow, Platform, VerificationStatus, ambiguous, duplicate, is_filled,
  not_a_number, number, rejected, text_or,
}
use buy_or_wait_ai_advisor.Backend.Ingestion.Normalizer.{
  Resolved, by_sign, column_amount, dual_amount, indicated, is_found, joined, magnitude, negated,
  nonzero, parse_clean_decimal, parsed_amount, resolve_amount_and_direction, single_amount,
}

-- A number that is below zero for a debit and not below zero for a credit.
abbrev pub IsSigned : Option Amount → String → Type 0
IsSigned amount direction =
    (a : Money) × (amount ≡ some (number a))
    × (((direction ≡ "debit") × (a <ℤ zero_money)) ⊎ ((direction ≡ "credit") × (zero_money ≤ℤ a)))

abbrev pub number_or : Money → Option Amount → Money
number_or default (some (number a)) = a
number_or default other = default

nonzero-number :
    (amount : Option Amount) {d : Money}
    → nonzero amount ≡ some (number d)
    → eqb_ℤ d zero_money ≡ false
nonzero-number none e = cc
nonzero-number (some not_a_number) e = cc
nonzero-number (some (number a)) e = elim (Bool-cases (eqb_ℤ a zero_money)) [
  | inl zero_there ↦ let nothing = rw zero_there at e in cc
  | inr other ↦
      let same : number_or zero_money (some (number a)) ≡ _ =
        ap (number_or zero_money) (rw other at e) in
      subst (λ z. eqb_ℤ z zero_money ≡ false) same other
]

nonzero-nan :
    (amount : Option Amount) → nonzero amount ≡ some not_a_number → amount ≡ some not_a_number
nonzero-nan none e = cc
nonzero-nan (some not_a_number) e = refl
nonzero-nan (some (number a)) e = elim (Bool-cases (eqb_ℤ a zero_money)) [
  | inl zero_there ↦ let nothing = rw zero_there at e in cc
  | inr other ↦ let clash = rw other at e in cc
]

-- A cell that is there and is read as a NaN.
abbrev pub ReadsNan : Platform → Option String → Type 0
ReadsNan lib cell = (s : String) × (cell ≡ some s) × (parse_clean_decimal lib s ≡ some not_a_number)

abbrev pub has_two_columns : DialectInfo → Bool
has_two_columns dialect = is_filled dialect.debit_column || is_filled dialect.credit_column

module _ (lib : Platform) (row : ParsedRow) where
  -- A NaN of one of the two columns, which is then the amount.
  abbrev pub IsNan : Option Amount → Type 0
  IsNan amount =
      (amount ≡ some not_a_number) × (ReadsNan lib row.debit_str ⊎ ReadsNan lib row.credit_str)

  abbrev SignedInColumns : Resolved → Type 0
  SignedInColumns (amount, direction, VerificationStatus.verified, reason) =
      IsSigned amount direction ⊎ IsNan amount
  SignedInColumns (amount, direction, status, reason) = Unit

  column_amount-nonzero :
      (cell : Option String) {d : Money}
      → column_amount lib cell ≡ some (number d)
      → eqb_ℤ d zero_money ≡ false
  unfolding column_amount
  column_amount-nonzero none e = cc
  column_amount-nonzero (some s) e = elim (Bool-cases (s == "")) [
    | inl empty ↦ let nothing = rw empty at e in cc
    | inr filled ↦ nonzero-number (parse_clean_decimal lib s) (rw filled at e)
  ]

  column_amount-nan :
      (cell : Option String) → column_amount lib cell ≡ some not_a_number → ReadsNan lib cell
  unfolding column_amount
  column_amount-nan none e = cc
  column_amount-nan (some s) e = elim (Bool-cases (s == "")) [
    | inl empty ↦ let nothing = rw empty at e in cc
    | inr filled ↦ (s, refl, nonzero-nan (parse_clean_decimal lib s) (rw filled at e))
  ]

  dual_amount-Signed :
      (debit_amt credit_amt : Option Amount)
      → column_amount lib row.debit_str ≡ debit_amt
      → column_amount lib row.credit_str ≡ credit_amt
      → SignedInColumns (dual_amount debit_amt credit_amt)
  unfolding dual_amount
  dual_amount-Signed (some d) (some c) h k = tt
  dual_amount-Signed (some (number d)) none h k =
      let other = column_amount-nonzero row.debit_str h in
      inl (
        negate (abs_ℤ d),
        refl,
        inl (refl, ground (arith, abs_parts d, negate_parts (abs_ℤ d), other)),
      )
  dual_amount-Signed (some not_a_number) none h k =
      inr (refl, inl (column_amount-nan row.debit_str h))
  dual_amount-Signed none (some (number c)) h k =
      inl (abs_ℤ c, refl, inr (refl, omega (arith, abs_parts c)))
  dual_amount-Signed none (some not_a_number) h k =
      inr (refl, inr (column_amount-nan row.credit_str k))
  dual_amount-Signed none none h k = tt

  -- What becomes of the single column: a signed number, or the exception for a NaN and no other.
  abbrev SignedOrRaised : Result Resolved → Type 0
  SignedOrRaised (ok (amount, direction, VerificationStatus.verified, reason)) =
      IsSigned amount direction
  SignedOrRaised (ok (amount, direction, status, reason)) = Unit
  SignedOrRaised (err e) = (e ≡ invalid_operation) × ReadsNan lib row.amount_str

  by_sign-Signed : (amt : Money) → SignedOrRaised (by_sign (number amt))
  by_sign-Signed amt = elim (Bool-cases (ltb_ℤ amt zero_money)) [
    | inl below ↦ (amt, refl, rw below (inl (refl, ground arith)))
    | inr above ↦ (amt, refl, rw above (inr (refl, ground arith)))
  ]

  convention-number :
      (b : Bool) (d : Money)
      → (a : Money) × ((if b then negated (number d) else number d) ≡ number a)
  convention-number true d = (negate d, refl)
  convention-number false d = (d, refl)

  indicated-number :
      (sign_convention : String) (has_dr has_cr : Bool) (d : Money)
      → (a : Money) × (indicated sign_convention has_dr has_cr (number d) ≡ number a)
  unfolding indicated
  indicated-number sign_convention true true d = convention-number (sign_convention == "inverted") d
  indicated-number sign_convention false false d =
      convention-number (sign_convention == "inverted") d
  indicated-number sign_convention true false d =
      let (a, e) = convention-number (sign_convention == "inverted") d in
      (negate (abs_ℤ a), ap (λ x. negated (magnitude x)) e)
  indicated-number sign_convention false true d =
      let (a, e) = convention-number (sign_convention == "inverted") d in (abs_ℤ a, ap magnitude e)

  indicated-nan :
      (sign_convention : String) (has_dr has_cr : Bool)
      → indicated sign_convention has_dr has_cr not_a_number ≡ not_a_number
  unfolding indicated
  indicated-nan sign_convention has_dr has_cr = ground arith

  abbrev says : String → Bool
  says pattern =
      is_found (lib.search pattern (upper (joined (map (λ field. field.1) row.raw_fields))))

  parsed_amount-Signed :
      (sign_convention amount_str : String) (amount : Option Amount)
      → row.amount_str ≡ some amount_str
      → parse_clean_decimal lib amount_str ≡ amount
      → SignedOrRaised (parsed_amount lib row sign_convention amount_str amount)
  unfolding parsed_amount
  parsed_amount-Signed sign_convention amount_str none h k = tt
  parsed_amount-Signed sign_convention amount_str (some (number d)) h k =
      let (a, e) =
        indicated-number sign_convention (says "\\b(DR|DEBIT)\\b") (says "\\b(CR|CREDIT)\\b") d in
      rw e (by_sign-Signed a)
  parsed_amount-Signed sign_convention amount_str (some not_a_number) h k =
      rw (indicated-nan sign_convention (says "\\b(DR|DEBIT)\\b") (says "\\b(CR|CREDIT)\\b"))
        (refl, (amount_str, h, k))

  -- What is promised of the amount of a row, by the format of the statement.
  abbrev pub AmountOutcome : DialectInfo → Result Resolved → Type 0
  AmountOutcome dialect (ok (amount, direction, VerificationStatus.verified, reason)) =
      IsSigned amount direction ⊎ ((has_two_columns dialect ≡ true) × IsNan amount)
  AmountOutcome dialect (ok (amount, direction, status, reason)) = Unit
  AmountOutcome dialect (err e) =
      (e ≡ invalid_operation) × (has_two_columns dialect ≡ false) × ReadsNan lib row.amount_str

  outcome-columns :
      (dialect : DialectInfo) (r : Resolved)
      → has_two_columns dialect ≡ true
      → SignedInColumns r
      → AmountOutcome dialect (ok r)
  outcome-columns dialect (amount, direction, VerificationStatus.verified, reason) two (inl s) =
      inl s
  outcome-columns dialect (amount, direction, VerificationStatus.verified, reason) two (inr n) =
      inr (two, n)
  outcome-columns dialect (amount, direction, ambiguous, reason) two h = tt
  outcome-columns dialect (amount, direction, rejected, reason) two h = tt
  outcome-columns dialect (amount, direction, duplicate, reason) two h = tt

  outcome-single :
      (dialect : DialectInfo) (r : Result Resolved)
      → has_two_columns dialect ≡ false
      → SignedOrRaised r
      → AmountOutcome dialect r
  outcome-single dialect (ok (amount, direction, VerificationStatus.verified, reason)) one h = inl h
  outcome-single dialect (ok (amount, direction, ambiguous, reason)) one h = tt
  outcome-single dialect (ok (amount, direction, rejected, reason)) one h = tt
  outcome-single dialect (ok (amount, direction, duplicate, reason)) one h = tt
  outcome-single dialect (err e) one (raised, reads) = (raised, one, reads)

  no_cell : (b : Bool) → (b && false) ≡ false
  no_cell b = ground arith

  single-Signed :
      (dialect : DialectInfo) (cell : Option String)
      → row.amount_str ≡ cell
      → SignedOrRaised (
          if is_filled dialect.amount_column && is_filled cell
          then single_amount lib row dialect.sign_convention (text_or "" cell)
          else ok (none, "debit", rejected, some "No amount column present in row"))
  unfolding single_amount
  single-Signed dialect none h = rw (no_cell (is_filled dialect.amount_column)) tt
  single-Signed dialect (some s) h = elim (Bool-cases (s == "")) [
    | inl empty ↦ rw (empty, no_cell (is_filled dialect.amount_column)) tt
    | inr filled ↦ elim (Bool-cases (is_filled dialect.amount_column)) [
      | inl there ↦
          rw (filled, there)
            (parsed_amount-Signed dialect.sign_convention s (parse_clean_decimal lib s) h refl)
      | inr absent ↦ rw (filled, absent) tt
    ]
  ]

-- A verified amount is a number, below zero for a debit and not below zero for a credit, for every format
-- of the statement and every convention of signs, except that a cell of a statement with two columns
-- that reads as a NaN is verified as a NaN. The only exception that is raised is `InvalidOperation`, for
-- a NaN in the one column of amounts.
pub resolve_amount_and_direction-IsSigned :
    (lib : Platform) (row : ParsedRow) (dialect : DialectInfo)
    → AmountOutcome lib row dialect (resolve_amount_and_direction lib row dialect)
unfolding resolve_amount_and_direction
resolve_amount_and_direction-IsSigned lib row dialect =
    elim (Bool-cases (has_two_columns dialect)) [
      | inl two ↦
          rw two (outcome-columns lib row dialect _ two (dual_amount-Signed lib row _ _ refl refl))
      | inr one ↦
          rw one (outcome-single lib row dialect _ one (single-Signed lib row dialect _ refl))
    ]
