-- ===== src/Domain.antt =====
-- The engine's data: buyorwait_engine/domain/{enums,models,state}.py. A Python string that the code
-- only compares stays a `String`; one that only the engine itself writes (a method, a status, a tier,
-- a verdict) is a data type with a constructor for each text.
use buy_or_wait_ai_advisor.Common.{
  Bool, Date, Dict, List, Money, Option, Result, String, [], err, if◌then◌else◌, leb_ℤ, ltb, ltb_ℤ,
  nat_eq, not, ok, pair_eq, string_eq, value_error, zero_money, ℕ, ◌&&◌, ◌==◌, ◌∷◌,
}

pub data Verdict : Type 0 where
  buy safer_payment wait not_recommended : Verdict

pub data AffordabilityStatus : Type 0 where
  affordable_now affordable_with_plan affordable_later not_affordable : AffordabilityStatus

pub data PaymentMethod : Type 0 where
  full_payment partial_payment installments wait not_recommended : PaymentMethod

pub data RiskTier : Type 0 where
  low_risk moderate_risk high_risk : RiskTier

pub data CashType : Type 0 where
  immediate_debit future_debit settled_income confirmed_income non_cash void : CashType

abbrev pub forecast_horizon_days : ℕ
forecast_horizon_days = 90

-- `{event_id: None}` stops a spending, `{event_id: amount}` reduces it; `None` for the whole dict
-- behaves as the empty one.
abbrev pub SpendingChanges : Type 0
SpendingChanges = Dict String (Option Money)

-- `{date: amount}`
abbrev pub PaymentPlan : Type 0
PaymentPlan = Dict Date Money

-- A confirmed future item. Its declared `date` is no `Optional`, so the code's tests for a missing
-- date of an item never succeed.
pub record ScheduledItem : Type 0 where
  pub event_id : Option String
  pub date : Date
  pub amount : Money
  pub category : String
  pub description : String
  pub source : String
  pub flexibility : String
  pub minimum_allowed_amount : Option Money
  pub event_id_for_change : Option String

pub record LifecycleEvent : Type 0 where
  pub event_id : String
  pub user_id : String
  pub category : String
  pub description : String
  pub event_type : String
  pub direction : String
  pub original_status : String
  pub settlement_date : Option Date
  pub event_date : Option Date
  pub amount_home : Money
  pub original_currency : String
  pub cash_type : CashType
  pub flexibility : String
  pub minimum_allowed_amount : Option Money
  pub linked_event_id : Option String

-- Without `recurring_streams` and `message_amendments`, which no decision reads.
pub record FinancialState : Type 0 where
  pub user_id : String
  pub request_id : String
  pub request_date : Date
  pub home_currency : String
  pub starting_balance : Money
  pub balance_before_pending : Money
  pub minimum_balance : Money
  pub pending_debit_total : Money
  pub protected_categories : List String
  pub reducible_categories : List String
  pub stoppable_categories : List String
  pub payment_methods : List String
  pub max_installment_months : Option Money
  pub lifecycle_events : List LifecycleEvent
  pub future_debits : List ScheduledItem
  pub future_income : List ScheduledItem
  pub recurring_debits : List ScheduledItem
  pub recurring_income : List ScheduledItem

-- `number_of_payments` and `payment_frequency_days` are counts.
pub record PaymentOptionInput : Type 0 where
  pub payment_option_id : String
  pub payment_type : String
  pub number_of_payments : ℕ
  pub first_payment_date : Option Date
  pub installment_amount : Money
  pub total_amount : Money
  pub interest_rate_pct : Money
  pub payment_frequency_days : Option ℕ
  pub financing_fee : Money

pub record PurchaseProposal : Type 0 where
  pub request_id : String
  pub user_id : String
  pub requested_amount : Money
  pub currency : String
  pub request_date : Date
  pub desired_completion_date : Date
  pub allows_partial_payment : Bool
  pub item_description : String
  pub merchant_name : String
  pub category : String
  pub item_category : String
  pub payment_options : List PaymentOptionInput

-- `__post_init__`; the types of the fields make its `TypeError`s impossible.
unfoldable pub purchase_proposal : PurchaseProposal → Result PurchaseProposal
purchase_proposal purchase =
    if leb_ℤ purchase.requested_amount zero_money
    then err value_error
    else if ltb purchase.desired_completion_date purchase.request_date
    then err value_error
    else ok (
        if purchase.category == "" && not (purchase.item_category == "")
        then record purchase { category = purchase.item_category }
        else purchase)

pub record FinancialProfileInput : Type 0 where
  pub user_id : String
  pub home_currency : String
  pub current_available_balance : Money
  pub minimum_balance_to_keep : Money
  pub financial_priorities : List String
  pub protected_categories : List String
  pub reducible_categories : List String
  pub stoppable_categories : List String
  pub payment_methods : List String
  pub payment_methods_accepted : List String
  pub max_installment_months : Option Money

-- `xs or ys`
abbrev pub or_list {ℓ} : {A : Type ℓ} → List A → List A → List A
or_list [] ys = ys
or_list (x ∷ xs) ys = x ∷ xs

-- `__post_init__`: each of the two lists of payment methods stands in for the other.
unfoldable pub financial_profile_input : FinancialProfileInput → Result FinancialProfileInput
financial_profile_input profile =
    if ltb_ℤ profile.minimum_balance_to_keep zero_money
    then err value_error
    else ok record profile {
      payment_methods = or_list profile.payment_methods profile.payment_methods_accepted;
      payment_methods_accepted = or_list profile.payment_methods_accepted profile.payment_methods;
    }

pub record CashflowEventInput : Type 0 where
  pub event_id : String
  pub user_id : String
  pub event_type : String
  pub description : String
  pub category : String
  pub direction : String
  pub amount : Money
  pub currency : String
  pub status : String
  pub settlement_date : Option Date
  pub event_date : Option Date
  pub flexibility : String
  pub minimum_allowed_amount : Option Money
  pub linked_event_id : Option String

abbrev pub salary_termination_keywords : List String
salary_termination_keywords =
    "final" ∷ "last " ∷ "terminated" ∷ "leaving" ∷ "resignation" ∷ "exit" ∷ "employment ended"
    ∷ "last month" ∷ "last payroll" ∷ "final payroll" ∷ []

-- The code's sets of categories, in one of the orders in which it may go through them.
abbrev pub fixed_categories : List String
fixed_categories =
    "rent" ∷ "utilities" ∷ "debt_repayment" ∷ "insurance" ∷ "housing" ∷ "streaming"
    ∷ "music_subscription" ∷ "cloud_storage" ∷ "delivery_membership" ∷ "education"
    ∷ "family_support" ∷ "gym" ∷ "shopping" ∷ "entertainment" ∷ "healthcare" ∷ []

abbrev pub variable_categories : List String
variable_categories =
    "groceries" ∷ "transport" ∷ "dining" ∷ "personal_care" ∷ "clothing" ∷ "fitness"
    ∷ "miscellaneous" ∷ "travel" ∷ "gifts" ∷ "childcare" ∷ "electronics" ∷ []
