-- ===== src/Backend/Purchases/Answers.antt =====
-- What the validation of a purchase answers, and its steps up to an option:
-- backend/services/purchase_validator.py.
use buy_or_wait_ai_advisor.Common.{
  All, Bool, Bool-cases, Date, Decimal, Error, IsIn, List, Option, Result, String, arith,
  attribute_error, err, false, finite, if◌then◌else◌, infinite, inl, inr, invalid_operation,
  invalid_purchase, lower, ltb_ℤ, nan, nat_eq, none, ok, ok-injective, pair_eq, pos, pos_part, refl,
  some, string_eq, strip, true, type_error, zero_money, ℕ, ℤ, ◌<ℤ◌, ◌==◌, ◌>>=◌, ◌≡◌, ◌≤◌, ◌⊎◌,
}
use buy_or_wait_ai_advisor.Backend.Purchases.{
  BuiltOption, BuiltPurchase, Parsers, RawEntry, RawOption, RawOptions, RawPurchase, RawValue,
  date_of_raw, day, decimal_or_zero, entry, is_above_zero, known_type, listed, missing, no_options,
  null, null_options, option_of, or_invalid, other, other_entry, payments_of, positive_or,
  requested_amount_of, require_that, str_or, text,
}

-- Above zero: a positive number or the positive infinity.
abbrev pub IsPositive : Decimal → Type 0
IsPositive (finite amount) = zero_money <ℤ amount
IsPositive (infinite below) = below ≡ false
IsPositive (nan signalling) = ⊥

abbrev pub IsNan : Decimal → Type 0
IsNan d = (signalling : Bool) × (d ≡ nan signalling)

-- What is asked of an option or of a purchase, as the planning takes it.
abbrev pub IsValidOption : BuiltOption → Type 0
IsValidOption o =
    (1 ≤ o.number_of_payments)
    × IsPositive o.total_amount
    × ((o.payment_type ≡ "full_payment") ⊎ (o.payment_type ≡ "installment"))
    × ((d : Date) × (o.first_payment_date ≡ some d))

abbrev pub IsValidPurchase : Parsers → String → BuiltPurchase → Type 0
IsValidPurchase lib user_id p =
    (p.user_id ≡ user_id)
    × IsPositive p.requested_amount
    × (p.request_date ≤ p.desired_completion_date)
    × (lib.is_match "^[A-Z]{3}$" p.currency ≡ true)
    × All IsValidOption p.payment_options

-- The faults of the options that are not answered by InvalidPurchaseError.
abbrev pub TotalIsNan : Parsers → List RawEntry → Type 0
TotalIsNan lib entries =
    (opt : RawOption) × IsIn (entry opt) entries × IsNan (decimal_or_zero lib opt.total_amount)

abbrev pub OptionsFault : Parsers → RawOptions → Error → Type 0
OptionsFault lib no_options e = ⊥
OptionsFault lib null_options e = e ≡ type_error
OptionsFault lib (listed entries) e =
    ((e ≡ attribute_error) × IsIn other_entry entries)
    ⊎ ((e ≡ invalid_operation) × TotalIsNan lib entries)

-- The exception for an invalid purchase, or another one with its cause.
abbrev pub IsExplained : Parsers → RawPurchase → Error → Type 0
IsExplained lib input e =
    (e ≡ invalid_purchase)
    ⊎ (((e ≡ invalid_operation)
          × ((d : Decimal) × (requested_amount_of lib input.requested_amount ≡ ok d) × IsNan d))
        ⊎ OptionsFault lib input.payment_options e)

-- A value with the property, or an exception with its cause.
abbrev pub Answers {ℓ} : {A : Type ℓ} → (Error → Type 0) → (A → Type 0) → Result A → Type 0
Answers E P (ok a) = P a
Answers E P (err e) = E e

pub Answers-bind :
    {A B : Type 0} (E : Error → Type 0) (P : A → Type 0) (Q : B → Type 0) (m : Result A)
    (f : A → Result B)
    → Answers E P m
    → ((a : A) → P a → Answers E Q (f a))
    → Answers E Q (m >>= f)
Answers-bind E P Q (ok a) f h k = k a h
Answers-bind E P Q (err e) f h k = h

-- A step keeps its causes where they count for more.
pub Answers-imp :
    {A : Type 0} (E F : Error → Type 0) (P : A → Type 0) (m : Result A)
    → ((e : Error) → E e → F e)
    → Answers E P m
    → Answers F P m
Answers-imp E F P (ok a) k h = h
Answers-imp E F P (err e) k h = k e h

pub above_zero-IsPositive : (d : Decimal) → is_above_zero d ≡ ok true → IsPositive d
unfolding is_above_zero
above_zero-IsPositive (finite amount) h = ground (arith, ok-injective h)
above_zero-IsPositive (infinite true) h = let clash = ok-injective h in cc
above_zero-IsPositive (infinite false) h = refl
above_zero-IsPositive (nan signalling) h = cc

pub IsPositive-above_zero : (d : Decimal) → IsPositive d → is_above_zero d ≡ ok true
unfolding is_above_zero
IsPositive-above_zero (finite amount) h = ground arith
IsPositive-above_zero (infinite below) h = rw h refl
IsPositive-above_zero (nan signalling) h = elim h [ ]

-- The causes that a caller takes, among them the exception for an invalid purchase.
module _ (E : Error → Type 0) (invalid : E invalid_purchase) where
  pub Answers-above_zero :
      (d : Decimal)
      → (IsNan d → E invalid_operation)
      → Answers E (λ above. is_above_zero d ≡ ok above) (is_above_zero d)
  unfolding is_above_zero
  Answers-above_zero (finite amount) k = refl
  Answers-above_zero (infinite below) k = refl
  Answers-above_zero (nan signalling) k = k (signalling, refl)

  pub Answers-require_that : (b : Bool) → Answers E (λ _. b ≡ true) (require_that b)
  Answers-require_that true = refl
  Answers-require_that false = invalid

  Answers-or_invalid :
      {A : Type 0} (o : Option A) → Answers E (λ a. or_invalid o ≡ ok a) (or_invalid o)
  Answers-or_invalid none = invalid
  Answers-or_invalid (some a) = refl

  pub Answers-requested_amount_of :
      (lib : Parsers) (raw : RawValue)
      → Answers E (λ amt. requested_amount_of lib raw ≡ ok amt) (requested_amount_of lib raw)
  unfolding requested_amount_of
  Answers-requested_amount_of lib missing = invalid
  Answers-requested_amount_of lib null = invalid
  Answers-requested_amount_of lib (text s) = Answers-or_invalid (lib.decimal s)
  Answers-requested_amount_of lib (day d) = Answers-or_invalid (lib.decimal (lib.isoformat d))
  Answers-requested_amount_of lib (other s truth) = Answers-or_invalid (lib.decimal s)

  Answers-read : {A : Type 0} (o : Option A) → Answers E (λ _. Unit) (or_invalid o)
  Answers-read none = invalid
  Answers-read (some a) = tt

  pub Answers-date_of_raw :
      (lib : Parsers) (absent : Result Date) (raw : RawValue)
      → Answers E (λ _. Unit) absent
      → Answers E (λ _. Unit) (date_of_raw lib absent raw)
  unfolding date_of_raw
  Answers-date_of_raw lib absent missing h = h
  Answers-date_of_raw lib absent null h = h
  Answers-date_of_raw lib absent (text s) h = Answers-read (lib.fromisoformat s)
  Answers-date_of_raw lib absent (day d) h = tt
  Answers-date_of_raw lib absent (other s truth) h = invalid

  abbrev checked_count : Option ℤ → Result ℕ
  checked_count none = err invalid_purchase
  checked_count (some n) = if ltb_ℤ n (pos 1) then err invalid_purchase else ok (pos_part n)

  Answers-checked_count : (n : Option ℤ) → Answers E (λ k. 1 ≤ k) (checked_count n)
  Answers-checked_count none = invalid
  Answers-checked_count (some n) = elim (Bool-cases (ltb_ℤ n (pos 1))) [
    | inl low ↦ rw low invalid
    | inr high ↦ rw high (ground arith)
  ]

  Answers-payments_of :
      (lib : Parsers) (raw : RawValue) → Answers E (λ k. 1 ≤ k) (payments_of lib raw)
  unfolding payments_of
  Answers-payments_of lib missing = omega arith
  Answers-payments_of lib null = Answers-checked_count (lib.int null)
  Answers-payments_of lib (text s) = Answers-checked_count (lib.int (text s))
  Answers-payments_of lib (day d) = Answers-checked_count (lib.int (day d))
  Answers-payments_of lib (other s truth) = Answers-checked_count (lib.int (other s truth))

  chosen-IsPositive :
      (amt tot : Decimal) (above : Bool)
      → IsPositive amt
      → is_above_zero tot ≡ ok above
      → IsPositive (if above then tot else amt)
  chosen-IsPositive amt tot true h k = above_zero-IsPositive tot k
  chosen-IsPositive amt tot false h k = h

  Answers-positive_or :
      (amt tot : Decimal)
      → IsPositive amt
      → (IsNan tot → E invalid_operation)
      → Answers E IsPositive (positive_or amt tot)
  unfolding positive_or
  Answers-positive_or amt tot h k =
      Answers-bind E (λ above. is_above_zero tot ≡ ok above) IsPositive (is_above_zero tot) _
        (Answers-above_zero tot k) (λ above e. chosen-IsPositive amt tot above h e)

  known_type-known : (s : String) → (known_type s ≡ "full_payment") ⊎ (known_type s ≡ "installment")
  known_type-known s = elim (Bool-cases (s == "full_payment")) [
    | inl full ↦ inl (rw full ((string_eq.beq_iff s "full_payment").0 full))
    | inr no_full ↦ elim (Bool-cases (s == "installment")) [
      | inl parts ↦ inr (rw (no_full, parts) ((string_eq.beq_iff s "installment").0 parts))
      | inr unknown ↦ inr (rw (no_full, unknown) refl)
    ]
  ]

  pub Answers-option_of :
      (lib : Parsers) (amt : Decimal) (req_dt : Date) (idx : ℕ) (opt : RawOption)
      → IsPositive amt
      → (IsNan (decimal_or_zero lib opt.total_amount) → E invalid_operation)
      → Answers E IsValidOption (option_of lib amt req_dt idx opt)
  unfolding option_of
  Answers-option_of lib amt req_dt idx opt positive k =
      let tot = decimal_or_zero lib opt.total_amount in
      Answers-bind E (λ n. 1 ≤ n) IsValidOption (payments_of lib opt.number_of_payments) _
        (Answers-payments_of lib opt.number_of_payments)
        (λ n at_least.
          Answers-bind E IsPositive IsValidOption (positive_or amt tot) _
            (Answers-positive_or amt tot positive k)
            (λ total above. (
              at_least,
              above,
              known_type-known (lower (strip (str_or lib "installment" opt.payment_type))),
              (_, refl),
            )))
