-- ===== src/Decision/Spending.antt =====
-- buyorwait_engine/decision/spending.py.
use Prim.Native.Nat.{min}
use Prim.Native.String.{compare}
use text.Mathlib.Text.{is_le}
pub mod Laws
use buy_or_wait_ai_advisor.Common.{
  Bool, Dict, List, Money, Option, String, [], abs_ℤ, contains, divide_signed, false, if◌then◌else◌,
  insert, length, lookup, ltb_ℤ, map, nat_eq, none, some, sort_by, string_eq, suc, zero, zero_money,
  ℕ, ℤ, ◌&&◌, ◌++◌, ◌+◌, ◌-ℤ◌, ◌==◌, ◌||◌, ◌∷◌,
}
use buy_or_wait_ai_advisor.Domain.{FinancialState, LifecycleEvent, ScheduledItem, SpendingChanges}

pub data ChangeType : Type 0 where
  stop reduce : ChangeType

pub record SpendingChangeOption : Type 0 where
  pub event_id : String
  pub change_type : ChangeType
  pub new_amount : Option Money
  pub category : String
  pub savings_per_occurrence : Money
  pub num_occurrences : ℕ

abbrev pub all_debit_items : FinancialState → List ScheduledItem
all_debit_items state = state.future_debits ++ state.recurring_debits

-- `orig_min_amts`: later events overwrite earlier ones of the same id.
unfoldable pub original_minimums : List LifecycleEvent → Dict String Money → Dict String Money
original_minimums [] found = found
original_minimums (ev ∷ events) found =
    original_minimums events (elim ev.minimum_allowed_amount [
      | none ↦ found
      | some least ↦ insert ev.event_id least found
    ])

-- `amount or Decimal('0')`
abbrev pub or_zero : Option Money → Money
or_zero none = zero_money
or_zero (some amt) = amt

abbrev pub is_id : String → Option String → Bool
is_id id none = false
is_id id (some other) = other == id

-- The number of items that a change of `event_id` would touch.
unfoldable pub occurrences : String → List ScheduledItem → ℕ
occurrences id [] = 0
occurrences id (item ∷ items) =
    (if is_id id item.event_id_for_change then 1 else 0) + occurrences id items

abbrev pub can_stop : FinancialState → ScheduledItem → Bool
can_stop state item =
    (item.flexibility == "stoppable" || item.flexibility == "reducible_or_stoppable")
    && contains item.category state.stoppable_categories

abbrev pub can_reduce : FinancialState → ScheduledItem → Bool
can_reduce state item =
    (item.flexibility == "reducible" || item.flexibility == "reducible_or_stoppable")
    && contains item.category state.reducible_categories

-- `orig_min_amts.get(event_id, item.minimum_allowed_amount) or Decimal('0')`
unfoldable pub target_minimum : FinancialState → String → ScheduledItem → Money
unfolding original_minimums
target_minimum state id item = elim (lookup id (original_minimums state.lifecycle_events [])) [
  | none ↦ or_zero item.minimum_allowed_amount
  | some least ↦ least
]

-- The body of the loop from `# Can stop?` on: the option that the item adds, if any.
unfoldable pub change_option : FinancialState → String → ScheduledItem → Option SpendingChangeOption
unfolding occurrences target_minimum
change_option state id item =
    let amount_per_occ = abs_ℤ item.amount in
    let savings = amount_per_occ -ℤ or_zero item.minimum_allowed_amount in
    let least = target_minimum state id item in
    let count = occurrences id (all_debit_items state) in
    if can_stop state item
    then some (record {
      event_id = id;
      change_type = stop;
      new_amount = none;
      category = item.category;
      savings_per_occurrence = amount_per_occ;
      num_occurrences = count;
    })
    else if can_reduce state item && (ltb_ℤ zero_money savings || ltb_ℤ least amount_per_occ)
    then some (record {
      event_id = id;
      change_type = reduce;
      new_amount = some least;
      category = item.category;
      savings_per_occurrence = savings;
      num_occurrences = count;
    })
    else none

-- One round of the loop: protected categories, items without an id and ids seen before are skipped.
unfoldable pub item_option :
    FinancialState → List String → ScheduledItem → Option SpendingChangeOption
unfolding change_option
item_option state seen item =
    if contains item.category state.protected_categories
    then none
    else elim item.event_id_for_change [
      | none ↦ none
      | some id ↦ if contains id seen then none else change_option state id item
    ]

-- The loop over `all_debit_items`, with `seen_event_ids`.
unfoldable pub eligible_from :
    FinancialState → List String → List ScheduledItem → List SpendingChangeOption
unfolding item_option
eligible_from state seen [] = []
eligible_from state seen (item ∷ items) = elim (item_option state seen item) [
  | none ↦ eligible_from state seen items
  | some opt ↦ opt ∷ eligible_from state (opt.event_id ∷ seen) items
]

unfoldable pub get_eligible_changes : FinancialState → List SpendingChangeOption
unfolding eligible_from
get_eligible_changes state = eligible_from state [] (all_debit_items state)

-- `itertools.combinations(options, r)`
unfoldable pub combinations {ℓ} : {A : Type ℓ} → ℕ → List A → List (List A)
combinations zero xs = [] ∷ []
combinations (suc r) [] = []
combinations (suc r) (x ∷ xs) = map (◌∷◌ x) (combinations r xs) ++ combinations (suc r) xs

-- `change[opt.event_id] = opt.new_amount`, for each option in turn.
unfoldable pub change_of : List SpendingChangeOption → SpendingChanges → SpendingChanges
change_of [] change = change
change_of (opt ∷ combo) change = change_of combo (insert opt.event_id opt.new_amount change)

-- `for r in range(low, low + count)`
unfoldable pub combos_from : List SpendingChangeOption → ℕ → ℕ → List SpendingChanges
unfolding combinations change_of
combos_from options low zero = []
combos_from options low (suc count) =
    map (λ combo. change_of combo []) (combinations low options)
    ++ combos_from options (low + 1) count

unfoldable pub enumerate_spending_change_combos : FinancialState → ℕ → List SpendingChanges
unfolding combos_from get_eligible_changes
enumerate_spending_change_combos state max_actions =
    let options = get_eligible_changes state in
    [] ∷ combos_from options 1 (min max_actions (length options))

-- The text of `format_spending_changes` as its parts; an amount is the number of cents that `:.2f`
-- prints (a trailing `.00` is cut off, which leaves the number).
pub data ChangeText : Type 0 where
  stop : String → ChangeText
  reduce_to : String → ℤ → ChangeText

abbrev pub cents_of : Money → ℤ
cents_of amt = divide_signed amt 1_000_000

abbrev pub id_le : String × Option Money → String × Option Money → Bool
id_le (a, _) (b, _) = is_le (compare a b)

abbrev pub change_text : String × Option Money → ChangeText
change_text (id, none) = ChangeText.stop id
change_text (id, some amt) = reduce_to id (cents_of amt)

-- `[]` stands for `'none'`.
unfoldable pub format_spending_changes : SpendingChanges → List ChangeText
format_spending_changes changes = map change_text (sort_by id_le changes)
