-- ===== src/Decision/Spending/Laws.antt =====
-- What may be changed: buyorwait_engine/decision/spending.py.
use buy_or_wait_ai_advisor.Common.{
  All, IsIn, List, Option-cases, String, [], arith, contains, false, inl, inr, nat_eq, none, refl,
  some, string_eq, true, ◌∷◌, ◌≡◌, ◌⊎◌,
}
use buy_or_wait_ai_advisor.Domain.{FinancialState, ScheduledItem}
use buy_or_wait_ai_advisor.Decision.Spending.{
  SpendingChangeOption, all_debit_items, can_reduce, can_stop, eligible_from, get_eligible_changes,
  item_option, target_minimum,
}

-- An option stems from a debit of an unprotected category, by a flexibility that the user allows.
abbrev pub IsEligible : FinancialState → ScheduledItem → SpendingChangeOption → Type 0
IsEligible state item opt =
    (item.event_id_for_change ≡ some opt.event_id)
    × (item.category ≡ opt.category)
    × (contains opt.category state.protected_categories ≡ false)
    × (((opt.new_amount ≡ none) × (can_stop state item ≡ true))
        ⊎ ((opt.new_amount ≡ some (target_minimum state opt.event_id item))
            × (can_reduce state item ≡ true)))

item_option-IsEligible :
    (state : FinancialState) (seen : List String) (item : ScheduledItem)
    (opt : SpendingChangeOption)
    → item_option state seen item ≡ some opt
    → IsEligible state item opt × (contains opt.event_id seen ≡ false)
unfolding item_option
item_option-IsEligible state seen item opt e = ground arith

-- Every option that the loop finds is eligible by some item, is not among the ids seen before, and is
-- not repeated.
abbrev pub IsFresh : List String → List SpendingChangeOption → Type 0
IsFresh seen [] = Unit
IsFresh seen (opt ∷ opts) =
    (contains opt.event_id seen ≡ false) × IsFresh (opt.event_id ∷ seen) opts

eligible_from-IsFresh :
    (state : FinancialState) (seen : List String) (items : List ScheduledItem)
    → IsFresh seen (eligible_from state seen items)
unfolding eligible_from
eligible_from-IsFresh state seen [] = tt
eligible_from-IsFresh state seen (item ∷ items) =
    elim (Option-cases (item_option state seen item)) [
      | inl e ↦ rw (e, eligible_from) (eligible_from-IsFresh state seen items)
      | inr (opt, e) ↦
          rw (e, eligible_from)
            (
              (item_option-IsEligible state seen item opt e).1,
              eligible_from-IsFresh state (opt.event_id ∷ seen) items,
            )
    ]

abbrev pub HasSource : FinancialState → List ScheduledItem → SpendingChangeOption → Type 0
HasSource state items opt = (item : ScheduledItem) × IsIn item items × IsEligible state item opt

HasSource-cons :
    (state : FinancialState) (item : ScheduledItem) (items : List ScheduledItem)
    → (opts : List SpendingChangeOption) → All (HasSource state items) opts
    → All (HasSource state (item ∷ items)) opts
HasSource-cons state item items [] h = tt
HasSource-cons state item items (opt ∷ opts) ((source, found, fits), rest) =
    ((source, inr found, fits), HasSource-cons state item items opts rest)

eligible_from-HasSource :
    (state : FinancialState) (seen : List String) (items : List ScheduledItem)
    → All (HasSource state items) (eligible_from state seen items)
unfolding eligible_from
eligible_from-HasSource state seen [] = tt
eligible_from-HasSource state seen (item ∷ items) =
    elim (Option-cases (item_option state seen item)) [
      | inl e ↦
          rw (e, eligible_from)
            (HasSource-cons state item items _ (eligible_from-HasSource state seen items))
      | inr (opt, e) ↦
          rw (e, eligible_from)
            (
              (item, inl refl, (item_option-IsEligible state seen item opt e).0),
              HasSource-cons state item items _
                  (eligible_from-HasSource state (opt.event_id ∷ seen) items),
            )
    ]

-- Every eligible change stems from a debit of the state whose category is not protected, stops it
-- only where the user lets the category be stopped, or else reduces it to its target minimum only
-- where the user lets it be reduced; and no two eligible changes have the same event id.
pub get_eligible_changes_sound :
    (state : FinancialState)
    → let options = get_eligible_changes state in
      All (HasSource state (all_debit_items state)) options × IsFresh [] options
unfolding get_eligible_changes
get_eligible_changes_sound state = (
  eligible_from-HasSource state [] (all_debit_items state),
  eligible_from-IsFresh state [] (all_debit_items state),
)
