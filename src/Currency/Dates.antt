-- ===== src/Currency/Dates.antt =====
-- The agreement of the two tables of an `FXEngine`, `_index` and `_pairs`: buyorwait_engine/currency/fx.py.
use buy_or_wait_ai_advisor.Common.{
  Bool, Bool-cases, Date, Dict, List, Option, String, [], ap, arith, contains, eqb, false,
  if◌then◌else◌, inl, inr, insert, leb, lookup, lookup-insert, lookup_or, nat_eq, none, pair_eq,
  refl, some, sort_by, sort_insert, string_eq, sym, true, ◌++◌, ◌==◌, ◌||◌, ◌∙◌, ◌∷◌, ◌≡◌,
}
use buy_or_wait_ai_advisor.Currency.Fx.{
  FxEngine, Pair, Rate, add_rate, dates_of, fx_engine, group_dates, normalise, sort_dates,
}

abbrev pub is_some {ℓ} : {A : Type ℓ} → Option A → Bool
is_some none = false
is_some (some a) = true

abbrev pub IsIndexed : FxEngine → Type 0
IsIndexed fx =
    (d : Date) (pair : Pair)
    → is_some (lookup (d, pair) fx.index) ≡ contains d (dates_of pair fx.pairs)

contains-append :
    (d : Date) (xs ys : List Date) → contains d (xs ++ ys) ≡ (contains d xs || contains d ys)
contains-append d [] ys = refl
contains-append d (x ∷ xs) ys = ground (arith, contains-append d xs ys)

contains-sort_insert :
    (d x : Date) (xs : List Date) → contains d (sort_insert leb x xs) ≡ (eqb d x || contains d xs)
unfolding sort_insert
contains-sort_insert d x [] = ground arith
contains-sort_insert d x (y ∷ ys) = ground (arith, contains-sort_insert d x ys)

contains-sort_by : (d : Date) (xs : List Date) → contains d (sort_by leb xs) ≡ contains d xs
unfolding sort_by
contains-sort_by d [] = refl
contains-sort_by d (x ∷ xs) =
    contains-sort_insert d x (sort_by leb xs) ∙ ap (λ b. eqb d x || b) (contains-sort_by d xs)

dates_of-insert :
    (p q : Pair) (dates : List Date) (m : Dict Pair (List Date))
    → dates_of p (insert q dates m) ≡ (if q == p then dates else dates_of p m)
unfolding dates_of lookup_or
dates_of-insert p q dates m = elim (Bool-cases (q == p)) [
  | inl same ↦ ground (arith, lookup-insert q p dates m)
  | inr other ↦ ground (arith, lookup-insert q p dates m)
]

dates_of-sort_dates :
    (p : Pair) (m : Dict Pair (List Date)) → dates_of p (sort_dates m) ≡ sort_by leb (dates_of p m)
unfolding dates_of lookup_or lookup sort_dates
dates_of-sort_dates p [] = unfold sort_by in refl
dates_of-sort_dates p ((q, dates) ∷ m) = ground (arith, dates_of-sort_dates p m)

contains-group_dates :
    (d : Date) (p : Pair) (index : Dict (Date × Pair) Rate) (m : Dict Pair (List Date))
    → contains d (dates_of p (group_dates index m))
      ≡ (contains d (dates_of p m) || is_some (lookup (d, p) index))
unfolding group_dates lookup
contains-group_dates d p [] m = ground arith
contains-group_dates d p (((c, q), rate) ∷ index) m =
    let later = contains-group_dates d p index (insert q (dates_of q m ++ c ∷ []) m) in
    let here = dates_of-insert p q (dates_of q m ++ c ∷ []) m in
    elim (Bool-cases (q == p)) [
      | inl same ↦
          let e : q ≡ p = (pair_eq.beq_iff q p).0 same in
          ground (arith, contains-append d (dates_of q m) (c ∷ []), ap (λ r. dates_of r m) e)
      | inr other ↦ ground arith
    ]

-- The constructor indexes the rates that it is given.
pub fx_engine-IsIndexed : (index : Dict (Date × Pair) Rate) → IsIndexed (fx_engine index)
unfolding fx_engine
fx_engine-IsIndexed index d p =
    let grouped = contains-group_dates d p index [] in
    let sorted = ap (contains d) (dates_of-sort_dates p (group_dates index [])) in
    sym (sorted ∙ contains-sort_by d (dates_of p (group_dates index [])) ∙ grouped)

-- Adding a rate keeps every date of every pair indexed.
pub add_rate-IsIndexed :
    (rate_date : Date) (from_currency to_currency : String) (rate : Rate) (fx : FxEngine)
    → IsIndexed fx
    → IsIndexed (add_rate rate_date from_currency to_currency rate fx)
unfolding add_rate
add_rate-IsIndexed rate_date from_currency to_currency rate fx indexed d p =
    let q : Pair = (normalise from_currency, normalise to_currency) in
    let dates = dates_of q fx.pairs in
    let present = lookup-insert (rate_date, q) (d, p) rate fx.index in
    let listed = dates_of-insert p q (sort_by leb (dates ++ rate_date ∷ [])) fx.pairs in
    let sorted = contains-sort_by d (dates ++ rate_date ∷ []) in
    let added = contains-append d dates (rate_date ∷ []) in
    elim (Bool-cases (q == p)) [
      | inl same ↦
          let e : q ≡ p = (pair_eq.beq_iff q p).0 same in
          ground (arith, indexed d p, ap (λ r. dates_of r fx.pairs) e)
      | inr other ↦ ground (arith, indexed d p)
    ]
