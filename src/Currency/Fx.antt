-- ===== src/Currency/Fx.antt =====
-- `FXEngine` and `FXRateMetadata`: buyorwait_engine/currency/fx.py.
use buy_or_wait_ai_advisor.Common.{
  Bool, Date, Dict, List, Money, Option, Result, String, [], contains, divide_half_even,
  divide_signed, eqb_ℤ, err, false, if◌then◌else◌, insert, key_error, leb, lookup, lookup_or, ltb,
  map_ok, nat_eq, negate, negsuc, none, not, ok, pair_eq, pos, rate_missing, select, some, sort_by,
  string_eq, strip, upper, ℤ, ◌&&◌, ◌*ℤ◌, ◌++◌, ◌+◌, ◌==◌, ◌>>=◌, ◌||◌, ◌∷◌,
}

abbrev pub Rate : Type 0
Rate = ℤ

-- `(from_currency, to_currency)`
abbrev pub Pair : Type 0
Pair = String × String

-- The text `source`, by its parts.
pub data RateSource : Type 0 where
  exact_date estimated_future_rate identity : RateSource
  prevailing projected_from : Date → RateSource
  reciprocal_of : String → String → RateSource → RateSource
  bridge : String → Rate → Rate → RateSource

pub record FxRateMetadata : Type 0 where
  pub from_currency : String
  pub to_currency : String
  pub rate : Rate
  pub effective_date : Date
  pub is_estimated : Bool
  pub source : RateSource

pub record FxEngine : Type 0 where
  pub index : Dict (Date × Pair) Rate
  pub pairs : Dict Pair (List Date)

-- `self._pairs.get(pair, [])`
unfoldable pub dates_of : Pair → Dict Pair (List Date) → List Date
unfolding lookup_or
dates_of pair pairs = lookup_or pair [] pairs

-- The first loop of `__init__`.
unfoldable pub group_dates : Dict (Date × Pair) Rate → Dict Pair (List Date) → Dict Pair (List Date)
unfolding insert dates_of
group_dates [] pairs = pairs
group_dates (((d, pair), rate) ∷ index) pairs =
    group_dates index (insert pair (dates_of pair pairs ++ d ∷ []) pairs)

-- The second: `self._pairs[k].sort()` for every key.
unfoldable pub sort_dates : Dict Pair (List Date) → Dict Pair (List Date)
unfolding sort_by
sort_dates [] = []
sort_dates ((pair, dates) ∷ pairs) = (pair, sort_by leb dates) ∷ sort_dates pairs

unfoldable pub fx_engine : Dict (Date × Pair) Rate → FxEngine
unfolding group_dates sort_dates
fx_engine fx_index = record { index = fx_index; pairs = sort_dates (group_dates fx_index []) }

-- `currency.strip().upper()`
unfoldable pub normalise : String → String
unfolding strip upper
normalise currency = upper (strip currency)

unfoldable pub add_rate : Date → String → String → Rate → FxEngine → FxEngine
unfolding normalise insert dates_of sort_by
add_rate rate_date from_currency to_currency rate fx =
    let pair : Pair = (normalise from_currency, normalise to_currency) in
    let dates = dates_of pair fx.pairs in
    record {
      index = insert (rate_date, pair) rate fx.index;
      pairs =
          if contains rate_date dates
          then fx.pairs
          else insert pair (sort_by leb (dates ++ rate_date ∷ [])) fx.pairs;
    }

-- `max(d, *dates)`
unfoldable pub latest_of : Date → List Date → Date
latest_of d [] = d
latest_of d (e ∷ dates) = let rest = latest_of e dates in if ltb d rest then rest else d

-- `self._index[...]` and the metadata of its rate.
abbrev pub rate_from :
    Pair → Date → Bool → RateSource → Option Rate → Result (Option FxRateMetadata)
rate_from pair effective_date is_future source none = err key_error
rate_from (frm, to) effective_date is_future source (some rate) = ok (
    some record {
      from_currency = frm;
      to_currency = to;
      rate = rate;
      effective_date = effective_date;
      is_estimated = is_future;
      source = source;
    })

unfoldable pub past_dates : FxEngine → Pair → Date → List Date
unfolding dates_of
past_dates fx pair eval_date = select (λ d. leb d eval_date) (dates_of pair fx.pairs)

unfoldable pub resolve_prevailing :
    FxEngine → Pair → Bool → List Date → Result (Option FxRateMetadata)
unfolding latest_of lookup
resolve_prevailing fx pair is_future [] = ok none
resolve_prevailing fx pair is_future (d ∷ dates) =
    let eff_date = latest_of d dates in
    rate_from pair eff_date is_future
      (if is_future then projected_from eff_date else prevailing eff_date)
      (lookup (eff_date, pair) fx.index)

-- With the entry for the very date, if there is one.
unfoldable pub exact_or_prevailing :
    FxEngine → Pair → Date → Bool → Option Rate → Result (Option FxRateMetadata)
unfolding past_dates resolve_prevailing
exact_or_prevailing fx pair eval_date is_future (some rate) =
    rate_from pair eval_date is_future (if is_future then estimated_future_rate else exact_date)
      (some rate)
exact_or_prevailing fx pair eval_date is_future none =
    resolve_prevailing fx pair is_future (past_dates fx pair eval_date)

unfoldable pub resolve_single_pair : Date → FxEngine → Pair → Date → Result (Option FxRateMetadata)
unfolding lookup exact_or_prevailing
resolve_single_pair today fx pair eval_date =
    exact_or_prevailing fx pair eval_date (ltb today eval_date) (lookup (eval_date, pair) fx.index)

-- `(Decimal("1") / rate).quantize(Decimal("0.00000001"))`, of a rate other than zero.
unfoldable pub reciprocal : Rate → Rate
unfolding divide_half_even negate
reciprocal (pos n) = pos (divide_half_even 10_000_000_000_000_000 n)
reciprocal (negsuc n) = negate (pos (divide_half_even 10_000_000_000_000_000 (n + 1)))

unfoldable pub inverse_of : FxRateMetadata → FxRateMetadata
unfolding reciprocal
inverse_of inv = record inv {
  from_currency = inv.to_currency;
  to_currency = inv.from_currency;
  rate = reciprocal inv.rate;
  source = reciprocal_of inv.from_currency inv.to_currency inv.source;
}

unfoldable pub inverted : Option FxRateMetadata → Option FxRateMetadata
unfolding inverse_of
inverted none = none
inverted (some inv) = if eqb_ℤ inv.rate (pos 0) then none else some (inverse_of inv)

-- The direct rate, else the reciprocal of the inverse one.
abbrev pub or_reciprocal :
    Result (Option FxRateMetadata) → Result (Option FxRateMetadata) → Result (Option FxRateMetadata)
or_reciprocal (ok (some direct)) inverse = ok (some direct)
or_reciprocal (ok none) inverse = map_ok inverted inverse
or_reciprocal (err e) inverse = err e

unfoldable pub resolve_direct_or_reciprocal :
    Date → FxEngine → String → String → Date → Result (Option FxRateMetadata)
unfolding resolve_single_pair inverted
resolve_direct_or_reciprocal today fx frm to eval_date =
    or_reciprocal (resolve_single_pair today fx (frm, to) eval_date)
      (resolve_single_pair today fx (to, frm) eval_date)

-- The two legs of a bridge, where both resolve.
unfoldable pub bridged :
    String → Option FxRateMetadata → Option FxRateMetadata → Option FxRateMetadata
unfolding divide_signed ◌*ℤ◌
bridged over (some leg1) (some leg2) = some record {
  from_currency = leg1.from_currency;
  to_currency = leg2.to_currency;
  rate = divide_signed (leg1.rate *ℤ leg2.rate) 100_000_000;
  effective_date =
      if ltb leg2.effective_date leg1.effective_date
      then leg2.effective_date
      else leg1.effective_date;
  is_estimated = leg1.is_estimated || leg2.is_estimated;
  source = bridge over leg1.rate leg2.rate;
}
bridged over (some leg1) none = none
bridged over none leg2 = none

-- Step 3 over "USD", step 4 over "EUR".
abbrev pub bridge_legs :
    String
    → Result (Option FxRateMetadata)
    → Result (Option FxRateMetadata)
    → Result (Option FxRateMetadata)
bridge_legs over first second = do leg1 ← first; leg2 ← second; ok (bridged over leg1 leg2)

unfoldable pub resolve_bridge :
    Date → FxEngine → String → String → String → Date → Result (Option FxRateMetadata)
unfolding resolve_direct_or_reciprocal bridged
resolve_bridge today fx over frm to eval_date =
    if not (frm == over) && not (to == over)
    then bridge_legs over (resolve_direct_or_reciprocal today fx frm over eval_date)
        (resolve_direct_or_reciprocal today fx over to eval_date)
    else ok none

-- The first way that gives a rate, else the next.
abbrev pub or_else {ℓ} : {A : Type ℓ} → Result (Option A) → Result A → Result A
or_else (ok (some a)) next = ok a
or_else (ok none) next = next
or_else (err e) next = err e

-- Steps 2 to 4.
unfoldable pub resolve_path : Date → FxEngine → String → String → Date → Result FxRateMetadata
unfolding resolve_direct_or_reciprocal resolve_bridge
resolve_path today fx frm to eval_date =
    or_else (resolve_direct_or_reciprocal today fx frm to eval_date) (
      or_else (resolve_bridge today fx "USD" frm to eval_date)
        (or_else (resolve_bridge today fx "EUR" frm to eval_date) (err rate_missing)))

unfoldable pub identity_rate : String → String → Date → FxRateMetadata
identity_rate frm to eval_date = record {
  from_currency = frm;
  to_currency = to;
  rate = pos 100_000_000;
  effective_date = eval_date;
  is_estimated = false;
  source = identity;
}

unfoldable pub resolve_rate : Date → FxEngine → String → String → Date → Result FxRateMetadata
unfolding normalise resolve_path identity_rate
resolve_rate today fx from_currency to_currency eval_date =
    let frm = normalise from_currency in
    let to = normalise to_currency in
    if frm == to
    then ok (identity_rate frm to eval_date)
    else resolve_path today fx frm to eval_date

-- `(amount * rate).quantize(Decimal('0.01'))`: the product is in units of 10^-16, a cent is 10^6 ticks.
unfoldable pub in_cents : Money → Rate → Money
unfolding divide_signed ◌*ℤ◌
in_cents amount rate = divide_signed (amount *ℤ rate) 100_000_000_000_000 *ℤ pos 1_000_000

unfoldable pub convert : Date → FxEngine → Money → String → String → Date → Result Money
unfolding normalise resolve_rate in_cents
convert today fx amount from_currency to_currency settlement_dt =
    if normalise from_currency == normalise to_currency
    then ok amount
    else map_ok (λ meta. in_cents amount (FxRateMetadata.rate meta))
        (resolve_rate today fx from_currency to_currency settlement_dt)

unfoldable pub to_home : Date → FxEngine → Money → String → String → Date → Result Money
unfolding convert
to_home today fx amount event_currency home_currency settlement_dt =
    convert today fx amount event_currency home_currency settlement_dt
