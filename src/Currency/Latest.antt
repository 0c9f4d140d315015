-- ===== src/Currency/Latest.antt =====
-- The lookup of the rate of a single pair: `_resolve_single_pair` of buyorwait_engine/currency/fx.py.
use buy_or_wait_ai_advisor.Common.{
  Bool, Bool-cases, Date, List, Option, Option-cases, Result, [], ap, arith, contains, eqb, eqb_iff,
  false≢true, inl, inr, leb, lookup, ltb, nat_eq, none, ok, pair_eq, refl, select, some, string_eq,
  sym, true, ◌&&◌, ◌↔◌, ◌∙◌, ◌∷◌, ◌≡◌, ◌≤◌, ◌⊎◌,
}
use buy_or_wait_ai_advisor.Currency.Fx.{
  FxEngine, FxRateMetadata, Pair, Rate, RateSource, dates_of, exact_or_prevailing, latest_of,
  past_dates, rate_from, resolve_prevailing, resolve_single_pair,
}
use buy_or_wait_ai_advisor.Currency.Dates.{IsIndexed, is_some}

contains-select :
    (p : Date → Bool) (d : Date) (xs : List Date)
    → contains d (select p xs) ≡ (p d && contains d xs)
contains-select p d [] = ground arith
contains-select p d (x ∷ xs) = elim (Bool-cases (eqb d x)) [
  | inl same ↦ let e = (eqb_iff d x).0 same in ground (arith, contains-select p d xs, ap p e)
  | inr other ↦ ground (arith, contains-select p d xs)
]

latest_of-contains : (d : Date) (ds : List Date) → contains (latest_of d ds) (d ∷ ds) ≡ true
unfolding latest_of
latest_of-contains d [] = ground arith
latest_of-contains d (e ∷ ds) = ground (arith, latest_of-contains e ds)

le-latest_of : (x d : Date) (ds : List Date) → contains x (d ∷ ds) ≡ true → x ≤ latest_of d ds
unfolding latest_of
le-latest_of x d [] h = ground arith
le-latest_of x d (e ∷ ds) h = ground (arith, le-latest_of x e ds)

abbrev pub HasRate : FxEngine → Pair → Date → Type 0
HasRate fx pair d = is_some (lookup (d, pair) fx.index) ≡ true

abbrev pub IsLatest : FxEngine → Pair → Date → Rate → Date → Type 0
IsLatest fx pair eval_date rate effective_date =
    (lookup (effective_date, pair) fx.index ≡ some rate)
    × (effective_date ≤ eval_date)
    × ((d : Date) → d ≤ eval_date → HasRate fx pair d → d ≤ effective_date)

-- No rate on or before the day.
abbrev pub IsUnknown : FxEngine → Pair → Date → Type 0
IsUnknown fx pair eval_date = (d : Date) → d ≤ eval_date → ¬ HasRate fx pair d

-- What a lookup of one pair returned.
abbrev pub SingleOutcome : FxEngine → Pair → Date → Result (Option FxRateMetadata) → Type 0
SingleOutcome fx pair eval_date result =
    ((meta : FxRateMetadata) × (result ≡ ok (some meta))
      × (meta.from_currency ≡ pair.0)
      × (meta.to_currency ≡ pair.1)
      × IsLatest fx pair eval_date meta.rate meta.effective_date)
    ⊎ ((result ≡ ok none) × IsUnknown fx pair eval_date)

past_iff :
    (fx : FxEngine) (pair : Pair) (eval_date d : Date)
    → IsIndexed fx
    → (contains d (past_dates fx pair eval_date) ≡ true) ↔ ((d ≤ eval_date) × HasRate fx pair d)
unfolding past_dates
past_iff fx pair eval_date d indexed =
    ground
      (arith, indexed d pair, contains-select (λ e. leb e eval_date) d (dates_of pair fx.pairs))

HasRate-lookup :
    (fx : FxEngine) (pair : Pair) (d : Date)
    → HasRate fx pair d
    → (rate : Rate) × (lookup (d, pair) fx.index ≡ some rate)
HasRate-lookup fx pair d h = elim (Option-cases (lookup (d, pair) fx.index)) [
  | inl missing ↦ ground arith
  | inr found ↦ found
]

-- A rate that is in the table, of the latest date at or before the day.
rate_from-SingleOutcome :
    (fx : FxEngine) (pair : Pair) (eval_date d : Date) (is_future : Bool) (source : RateSource)
    → d ≤ eval_date
    → HasRate fx pair d
    → ((e : Date) → e ≤ eval_date → HasRate fx pair e → e ≤ d)
    → SingleOutcome fx pair eval_date
        (rate_from pair d is_future source (lookup (d, pair) fx.index))
rate_from-SingleOutcome fx (frm, to) eval_date d is_future source le has least =
    let (rate, found) = HasRate-lookup fx (frm, to) d has in
    inl (_, ap (rate_from (frm, to) d is_future source) found, refl, refl, (found, le, least))

resolve_prevailing-SingleOutcome :
    (fx : FxEngine) (pair : Pair) (eval_date : Date) (is_future : Bool) (dates : List Date)
    → IsIndexed fx
    → past_dates fx pair eval_date ≡ dates
    → SingleOutcome fx pair eval_date (resolve_prevailing fx pair is_future dates)
unfolding resolve_prevailing
resolve_prevailing-SingleOutcome fx pair eval_date is_future [] indexed e = inr (
  refl,
  λ d le has.
      let listed = (past_iff fx pair eval_date d indexed).1 (le, has) in
      false≢true (sym (ap (contains d) e) ∙ listed),
)
resolve_prevailing-SingleOutcome fx pair eval_date is_future (d ∷ ds) indexed e =
    let latest = latest_of d ds in
    let is_past = past_iff fx pair eval_date latest indexed in
    let (le, has) = is_past.0 (ap (contains latest) e ∙ latest_of-contains d ds) in
    rate_from-SingleOutcome fx pair eval_date latest is_future _ le has (λ c c_le c_has.
      let listed = (past_iff fx pair eval_date c indexed).1 (c_le, c_has) in
      le-latest_of c d ds (sym (ap (contains c) e) ∙ listed))

exact_or_prevailing-SingleOutcome :
    (fx : FxEngine) (pair : Pair) (eval_date : Date) (is_future : Bool) (exact : Option Rate)
    → IsIndexed fx
    → lookup (eval_date, pair) fx.index ≡ exact
    → SingleOutcome fx pair eval_date (exact_or_prevailing fx pair eval_date is_future exact)
unfolding exact_or_prevailing
exact_or_prevailing-SingleOutcome fx pair eval_date is_future none indexed e =
    resolve_prevailing-SingleOutcome fx pair eval_date is_future _ indexed refl
exact_or_prevailing-SingleOutcome fx (frm, to) eval_date is_future (some rate) indexed e =
    inl (_, refl, refl, refl, (e, omega arith, λ d le has. le))

-- On an indexed engine the lookup of one pair returns the rate of the latest date at or before the
-- day of evaluation, and nothing where the pair has no rate by then; it raises no `KeyError`.
pub resolve_single_pair-SingleOutcome :
    (today : Date) (fx : FxEngine) (pair : Pair) (eval_date : Date)
    → IsIndexed fx
    → SingleOutcome fx pair eval_date (resolve_single_pair today fx pair eval_date)
unfolding resolve_single_pair
resolve_single_pair-SingleOutcome today fx pair eval_date indexed =
    exact_or_prevailing-SingleOutcome fx pair eval_date (ltb today eval_date) _ indexed refl
