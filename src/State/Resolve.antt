-- ===== src/State/Resolve.antt =====
-- `_classify_cash_type`, `_convert_to_home` and `resolve_events` of buyorwait_engine/state/builder.py.
pub mod Laws
use buy_or_wait_ai_advisor.Common.{
  Bool, Date, Dict, List, Money, Option, Result, String, [], contains, err, false, if◌then◌else◌,
  insert, lookup, nat_eq, none, ok, pair_eq, some, string_eq, true, ◌&&◌, ◌==◌, ◌||◌, ◌∷◌,
}
use buy_or_wait_ai_advisor.Domain.{
  CashType, CashflowEventInput, LifecycleEvent, confirmed_income, future_debit, immediate_debit,
  non_cash, settled_income, void,
}
use buy_or_wait_ai_advisor.Currency.Fx.{FxEngine, to_home}

unfoldable pub classify_cash_type : CashflowEventInput → CashType
classify_cash_type e =
    if e.direction == "non_cash"
    then non_cash
    else if e.status == "cancelled" || e.status == "failed"
    then void
    else if e.status == "unrealized"
    then non_cash
    else if e.status == "pending"
    then (if e.direction == "debit" then immediate_debit else void)
    else if e.status == "settled"
    then (if e.direction == "debit" then immediate_debit else settled_income)
    else if e.status == "scheduled"
    then (if e.direction == "debit" then future_debit else confirmed_income)
    else void

-- `except Exception: return amount`
abbrev pub or_amount : Money → Result Money → Money
or_amount amount (ok converted) = converted
or_amount amount (err e) = amount

unfoldable pub convert_to_home :
    Date → Money → String → String → Option Date → Option FxEngine → Money
unfolding to_home
convert_to_home today amount currency home_currency none fx = amount
convert_to_home today amount currency home_currency (some dt) none = amount
convert_to_home today amount currency home_currency (some dt) (some fx) =
    if currency == home_currency
    then amount
    else or_amount amount (to_home today fx amount currency home_currency dt)

-- `{e.event_id: e for e in events}`, continued from a dict.
unfoldable pub event_map_from :
    Dict String CashflowEventInput → List CashflowEventInput → Dict String CashflowEventInput
unfolding insert
event_map_from d [] = d
event_map_from d (e ∷ events) = event_map_from (insert e.event_id e d) events

-- The id that the event supersedes, if it does.
unfoldable pub superseded_by : Dict String CashflowEventInput → CashflowEventInput → Option String
unfolding lookup
superseded_by event_map e = elim e.linked_event_id [
  | none ↦ none
  | some linked ↦ if linked == "" then none else elim (lookup linked event_map) [
    | none ↦ none
    | some orig ↦
        if e.direction == "non_cash"
          || contains e.event_type ("refund" ∷ "investment_valuation" ∷ "investment_sale" ∷ [])
          || contains e.status ("settled" ∷ "cancelled" ∷ "failed" ∷ [])
            && contains orig.status ("pending" ∷ "scheduled" ∷ [])
        then some linked
        else none
  ]
]

-- `superseded_ids.add`, where there is an id to add.
abbrev pub add_superseded : Option String → List String → List String
add_superseded none ids = ids
add_superseded (some linked) ids = linked ∷ ids

-- The set, as a list.
unfoldable pub superseded_ids :
    Dict String CashflowEventInput → List CashflowEventInput → List String
unfolding superseded_by
superseded_ids event_map [] = []
superseded_ids event_map (e ∷ events) =
    add_superseded (superseded_by event_map e) (superseded_ids event_map events)

-- `e.settlement_date or e.event_date`
abbrev pub or_date : Option Date → Option Date → Option Date
or_date (some d) other = some d
or_date none other = other

abbrev pub is_void : CashType → Bool
is_void void = true
is_void _ = false

unfoldable pub lifecycle_event :
    Date → String → Option FxEngine → CashflowEventInput → LifecycleEvent
unfolding classify_cash_type convert_to_home
lifecycle_event today home_currency fx e = record {
  event_id = e.event_id;
  user_id = e.user_id;
  category = e.category;
  description = e.description;
  event_type = e.event_type;
  direction = e.direction;
  original_status = e.status;
  settlement_date = e.settlement_date;
  event_date = e.event_date;
  amount_home =
      convert_to_home today e.amount e.currency home_currency
        (or_date e.settlement_date e.event_date) fx;
  original_currency = e.currency;
  cash_type = classify_cash_type e;
  flexibility = e.flexibility;
  minimum_allowed_amount = e.minimum_allowed_amount;
  linked_event_id = e.linked_event_id;
}

-- The second loop of `resolve_events`.
unfoldable pub kept_events :
    Date → String → Option FxEngine → List String → List CashflowEventInput → List LifecycleEvent
unfolding lifecycle_event
kept_events today home_currency fx superseded [] = []
kept_events today home_currency fx superseded (e ∷ events) =
    let rest = kept_events today home_currency fx superseded events in
    if contains e.event_id superseded || is_void (classify_cash_type e)
    then rest
    else lifecycle_event today home_currency fx e ∷ rest

unfoldable pub resolve_events :
    Date → List CashflowEventInput → String → Option FxEngine → List LifecycleEvent
unfolding event_map_from superseded_ids kept_events
resolve_events today events home_currency fx =
    kept_events today home_currency fx (superseded_ids (event_map_from [] events) events) events
