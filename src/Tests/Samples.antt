-- ===== src/Tests/Samples.antt =====
-- A user with a monthly debit of 100 and a balance of 1000 units, of which 200 are to be kept, and a
-- purchase of 300.
use buy_or_wait_ai_advisor.Common.{[], negate, none, some, true, units, ◌∷◌}
use buy_or_wait_ai_advisor.Domain.{FinancialState, PurchaseProposal, ScheduledItem}

abbrev pub rent_item : ScheduledItem
rent_item = record {
  event_id = none;
  date = 739_005;
  amount = negate (units 100);
  category = "groceries";
  description = "[recurring daily] groceries";
  source = "recurring";
  flexibility = "reducible";
  minimum_allowed_amount = some (units 40);
  event_id_for_change = some "e1";
}

abbrev pub sample_state : FinancialState
sample_state = record {
  user_id = "u";
  request_id = "r";
  request_date = 739_000;
  home_currency = "USD";
  starting_balance = units 1000;
  balance_before_pending = units 1000;
  minimum_balance = units 200;
  pending_debit_total = units 0;
  protected_categories = [];
  reducible_categories = "groceries" ∷ [];
  stoppable_categories = [];
  payment_methods = "full_payment" ∷ [];
  max_installment_months = none;
  lifecycle_events = [];
  future_debits = [];
  future_income = [];
  recurring_debits = rent_item ∷ [];
  recurring_income = [];
}

abbrev pub sample_purchase : PurchaseProposal
sample_purchase = record {
  request_id = "r";
  user_id = "u";
  requested_amount = units 300;
  currency = "USD";
  request_date = 739_000;
  desired_completion_date = 739_030;
  allows_partial_payment = true;
  item_description = "";
  merchant_name = "";
  category = "";
  item_category = "";
  payment_options = [];
}

-- The same user with 300 units now and an income of 500 in ten days.
abbrev pub late_state : FinancialState
late_state = record sample_state {
  starting_balance = units 300;
  recurring_debits = [];
  recurring_income = record rent_item { date = 739_010; amount = units 500 } ∷ [];
}
