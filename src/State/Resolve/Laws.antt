-- ===== src/State/Resolve/Laws.antt =====
-- `resolve_events` of buyorwait_engine/state/builder.py: no event counts beside the one it is settled by.
use mathlib.Core.Option.{some-injective}
use buy_or_wait_ai_advisor.Common.{
  All, Bool, Bool-cases, Date, Dict, IsIn, List, Option, String, [], ap, arith, contains, false,
  false≢true, inl, inr, insert, lookup, lookup-insert, nat_eq, none, pair_eq, refl, some, string_eq,
  sym, true, ◌&&◌, ◌==◌, ◌||◌, ◌∙◌, ◌∷◌, ◌≡◌, ◌⊎◌,
}
use buy_or_wait_ai_advisor.Domain.{CashflowEventInput}
use buy_or_wait_ai_advisor.Currency.Fx.{FxEngine}
use buy_or_wait_ai_advisor.State.Resolve.{
  add_superseded, classify_cash_type, event_map_from, is_void, kept_events, lifecycle_event,
  resolve_events, superseded_by, superseded_ids,
}

-- `original` is the only event with its id.
abbrev pub IsOnly : CashflowEventInput → List CashflowEventInput → Type 0
IsOnly original events =
    IsIn original events × All (λ e. e.event_id ≡ original.event_id → e ≡ original) events

-- `e` is the record of what became of `original`: its settlement or cancellation, a refund, a sale or a
-- valuation.
abbrev pub Supersedes : CashflowEventInput → CashflowEventInput → Type 0
Supersedes e original =
    (e.linked_event_id ≡ some original.event_id)
    × ¬ (original.event_id ≡ "")
    × ((e.direction ≡ "non_cash")
        ⊎ (contains e.event_type ("refund" ∷ "investment_valuation" ∷ "investment_sale" ∷ [])
            ≡ true)
        ⊎ ((contains e.status ("settled" ∷ "cancelled" ∷ "failed" ∷ []) ≡ true)
            × (contains original.status ("pending" ∷ "scheduled" ∷ []) ≡ true)))

or_true :
    (a b c d : Bool)
    → (a ≡ true) ⊎ (b ≡ true) ⊎ ((c ≡ true) × (d ≡ true))
    → (a || b || c && d) ≡ true
or_true a b c d how = ground arith

not_beq : (x y : String) → ¬ (x ≡ y) → (x == y) ≡ false
not_beq x y other = elim (Bool-cases (x == y)) [
  | inl same ↦ absurd (other ((string_eq.beq_iff x y).0 same))
  | inr different ↦ different
]

beq_first : {x y : String} {B : Type 0} → (x ≡ y) ⊎ B → ((x == y) ≡ true) ⊎ B
beq_first (inl same) = inl ((string_eq.beq_iff _ _).1 same)
beq_first (inr other) = inr other

abbrev is_update : CashflowEventInput → CashflowEventInput → Bool
is_update e original =
    e.direction == "non_cash"
    || contains e.event_type ("refund" ∷ "investment_valuation" ∷ "investment_sale" ∷ [])
    || contains e.status ("settled" ∷ "cancelled" ∷ "failed" ∷ [])
      && contains original.status ("pending" ∷ "scheduled" ∷ [])

contains-here :
    (id : String) (o : Option String) (rest : List String)
    → o ≡ some id
    → contains id (add_superseded o rest) ≡ true
contains-here id none rest e = cc
contains-here id (some linked) rest e =
    rw ((string_eq.beq_iff id linked).1 (sym (some-injective _ _ e))) refl

contains-later :
    (id : String) (o : Option String) (rest : List String)
    → contains id rest ≡ true
    → contains id (add_superseded o rest) ≡ true
contains-later id none rest e = e
contains-later id (some linked) rest e = rw e (ground arith)

module _ (original : CashflowEventInput) where
  lookup-insert_only :
      (d : Dict String CashflowEventInput) (e : CashflowEventInput)
      → (e.event_id ≡ original.event_id → e ≡ original)
      → (lookup original.event_id d ≡ some original) ⊎ (e ≡ original)
      → lookup original.event_id (insert e.event_id e d) ≡ some original
  lookup-insert_only d e only known =
      lookup-insert e.event_id original.event_id e d
      ∙ elim (Bool-cases (e.event_id == original.event_id)) [
        | inl same ↦
            let first : e ≡ original = only ((string_eq.beq_iff _ _).0 same) in
            rw (same, first) refl
        | inr other ↦ elim known [
          | inl held ↦ rw (other, held) refl
          | inr first ↦
              absurd
                (false≢true (sym other ∙ (string_eq.beq_iff _ _).1 (ap (λ z. z.event_id) first)))
        ]
      ]

  event_map_from-kept :
      (d : Dict String CashflowEventInput) (events : List CashflowEventInput)
      → All (λ e. e.event_id ≡ original.event_id → e ≡ original) events
      → lookup original.event_id d ≡ some original
      → lookup original.event_id (event_map_from d events) ≡ some original
  unfolding event_map_from
  event_map_from-kept d [] all known = known
  event_map_from-kept d (e ∷ events) all known =
      event_map_from-kept (insert e.event_id e d) events all.1
        (lookup-insert_only d e all.0 (inl known))

  event_map_from-IsOnly :
      (d : Dict String CashflowEventInput) (events : List CashflowEventInput)
      → IsOnly original events
      → lookup original.event_id (event_map_from d events) ≡ some original
  unfolding event_map_from
  event_map_from-IsOnly d [] (found, all) = absurd found
  event_map_from-IsOnly d (e ∷ events) (inl same, all) =
      event_map_from-kept (insert e.event_id e d) events all.1
        (lookup-insert_only d e all.0 (inr (sym same)))
  event_map_from-IsOnly d (e ∷ events) (inr later, all) =
      event_map_from-IsOnly (insert e.event_id e d) events (later, all.1)

  superseded_by-Supersedes :
      (d : Dict String CashflowEventInput) (e : CashflowEventInput)
      → lookup original.event_id d ≡ some original
      → Supersedes e original
      → superseded_by d e ≡ some original.event_id
  unfolding superseded_by
  superseded_by-Supersedes d e known (linked, named, how) =
      let filled : (original.event_id == "") ≡ false = not_beq _ _ named in
      let update : is_update e original ≡ true = or_true _ _ _ _ (beq_first how) in
      rw (linked, filled, known, update) refl

  superseded_ids-contains :
      (d : Dict String CashflowEventInput) (events : List CashflowEventInput)
      (e : CashflowEventInput)
      → IsIn e events
      → superseded_by d e ≡ some original.event_id
      → contains original.event_id (superseded_ids d events) ≡ true
  unfolding superseded_ids
  superseded_ids-contains d [] e found h = absurd found
  superseded_ids-contains d (first ∷ events) e (inl same) h =
      contains-here original.event_id (superseded_by d first) (superseded_ids d events)
        (sym (ap (superseded_by d) same) ∙ h)
  superseded_ids-contains d (first ∷ events) e (inr later) h =
      contains-later original.event_id (superseded_by d first) (superseded_ids d events)
        (superseded_ids-contains d events e later h)

kept_events-absent :
    (today : Date) (home_currency : String) (fx : Option FxEngine) (id : String)
    (superseded : List String) (events : List CashflowEventInput)
    → contains id superseded ≡ true
    → All (λ ev. ¬ (ev.event_id ≡ id)) (kept_events today home_currency fx superseded events)
unfolding kept_events lifecycle_event
kept_events-absent today home_currency fx id superseded [] h = tt
kept_events-absent today home_currency fx id superseded (e ∷ events) h =
    let rest = kept_events-absent today home_currency fx id superseded events h in
    elim (Bool-cases (contains e.event_id superseded || is_void (classify_cash_type e))) [
      | inl dropped ↦ rw dropped rest
      | inr kept ↦ rw kept (
        λ same.
            absurd (false≢true (sym kept ∙ rw (ap (λ id. contains id superseded) same ∙ h) refl)),
        rest,
      )
    ]

-- An event does not count beside the record of what became of it: once an event of the list supersedes
-- it, no resolved event has its id, where the ids tell it from the others.
pub resolve_events-superseded :
    (today : Date) (events : List CashflowEventInput) (home_currency : String)
    (fx : Option FxEngine) (e original : CashflowEventInput)
    → IsIn e events
    → IsOnly original events
    → Supersedes e original
    → All (λ ev. ¬ (ev.event_id ≡ original.event_id)) (resolve_events today events home_currency fx)
unfolding resolve_events
resolve_events-superseded today events home_currency fx e original found only supersedes =
    let event_map = event_map_from [] events in
    let known = event_map_from-IsOnly original [] events only in
    kept_events-absent today home_currency fx original.event_id (superseded_ids event_map events)
      events
      (superseded_ids-contains original event_map events e found
        (superseded_by-Supersedes original event_map e known supersedes))
