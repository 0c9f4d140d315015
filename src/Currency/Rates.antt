-- ===== src/Currency/Rates.antt =====
-- The whole resolution: `resolve_rate` and the errors that it may raise.
use mathlib.Core.Path.{subst}
use buy_or_wait_ai_advisor.Common.{
  Bool, Date, Option, Result, String, ap, err, false, if◌then◌else◌, inl, inr, lookup,
  lookup-insert, ltb, nat_eq, ok, ok-injective, pair_eq, rate_missing, refl, some, string_eq, sym,
  true, ◌==◌, ◌∙◌, ◌≡◌, ◌≤◌, ◌⊎◌,
}
use buy_or_wait_ai_advisor.Currency.Fx.{
  FxEngine, FxRateMetadata, Pair, Rate, add_rate, exact_or_prevailing, identity_rate, normalise,
  or_else, or_reciprocal, resolve_direct_or_reciprocal, resolve_path, resolve_rate,
  resolve_single_pair,
}
use buy_or_wait_ai_advisor.Currency.Dates.{IsIndexed}
use buy_or_wait_ai_advisor.Currency.Quotes.{
  IsQuoted, LegOutcome, Quote-le, direct_or_reciprocal-LegOutcome, resolve_bridge-LegOutcome, same,
}

-- What the whole resolution may come to.
abbrev pub RateOutcome : FxEngine → Date → String → String → Result FxRateMetadata → Type 0
RateOutcome fx eval_date frm to result =
    ((meta : FxRateMetadata) × (result ≡ ok meta) × IsQuoted fx eval_date frm to meta)
    ⊎ (result ≡ err rate_missing)

or_else-RateOutcome :
    (fx : FxEngine) (eval_date : Date) (frm to : String) (leg : Result (Option FxRateMetadata))
    (next : Result FxRateMetadata)
    → LegOutcome fx eval_date frm to leg
    → RateOutcome fx eval_date frm to next
    → RateOutcome fx eval_date frm to (or_else leg next)
or_else-RateOutcome fx eval_date frm to leg next (inl (meta, e, quoted)) later =
    inl (meta, ap (λ r. or_else r next) e, quoted)
or_else-RateOutcome fx eval_date frm to leg next (inr e) later =
    subst (RateOutcome fx eval_date frm to) (sym (ap (λ r. or_else r next) e)) later

if-RateOutcome :
    (fx : FxEngine) (eval_date : Date) (frm to : String) (b : Bool) (result : Result FxRateMetadata)
    → (b ≡ true → frm ≡ to)
    → RateOutcome fx eval_date frm to result
    → RateOutcome fx eval_date frm to (if b then ok (identity_rate frm to eval_date) else result)
unfolding identity_rate
if-RateOutcome fx eval_date frm to true result h later =
    inl (_, refl, (refl, refl, same frm to (h refl)))
if-RateOutcome fx eval_date frm to false result h later = later

resolve_path-RateOutcome :
    (today : Date) (fx : FxEngine) (frm to : String) (eval_date : Date)
    → IsIndexed fx
    → RateOutcome fx eval_date frm to (resolve_path today fx frm to eval_date)
unfolding resolve_path
resolve_path-RateOutcome today fx frm to eval_date indexed =
    or_else-RateOutcome fx eval_date frm to _ _
      (direct_or_reciprocal-LegOutcome today fx frm to eval_date indexed)
      (or_else-RateOutcome fx eval_date frm to _ _
        (resolve_bridge-LegOutcome today fx "USD" frm to eval_date indexed (inl refl))
        (or_else-RateOutcome fx eval_date frm to _ _
          (resolve_bridge-LegOutcome today fx "EUR" frm to eval_date indexed (inr refl))
          (inr refl)))

-- On an indexed engine the rate that is resolved is a quote for the normalised currencies: one for
-- one, the latest rate by the day, the reciprocal of the inverse one where there is none, or the
-- product of two quotes over USD or EUR; and the only error is `FXRateMissingError`.
pub resolve_rate-RateOutcome :
    (today : Date) (fx : FxEngine) (from_currency to_currency : String) (eval_date : Date)
    → IsIndexed fx
    → RateOutcome fx eval_date
        (normalise from_currency)
        (normalise to_currency)
        (resolve_rate today fx from_currency to_currency eval_date)
unfolding resolve_rate
resolve_rate-RateOutcome today fx from_currency to_currency eval_date indexed =
    let frm = normalise from_currency in
    let to = normalise to_currency in
    if-RateOutcome fx eval_date frm to _ _ (string_eq.beq_iff frm to).0
      (resolve_path-RateOutcome today fx frm to eval_date indexed)

-- A resolved rate is effective at or before the day of evaluation: no later rate is ever used.
pub resolve_rate-le :
    (today : Date) (fx : FxEngine) (from_currency to_currency : String) (eval_date : Date)
    {meta : FxRateMetadata}
    → IsIndexed fx
    → resolve_rate today fx from_currency to_currency eval_date ≡ ok meta
    → meta.effective_date ≤ eval_date
resolve_rate-le today fx from_currency to_currency eval_date indexed e =
    elim (resolve_rate-RateOutcome today fx from_currency to_currency eval_date indexed) [
      | inl (found, k, (_, _, quote)) ↦
          let same_meta = ok-injective (sym k ∙ e) in
          subst (λ m. FxRateMetadata.effective_date m ≤ eval_date) same_meta
            (Quote-le fx eval_date quote)
      | inr missing ↦ cc
    ]

abbrev pub ResolvesTo : Result FxRateMetadata → Rate → Date → Type 0
ResolvesTo result rate d =
    (meta : FxRateMetadata) × (result ≡ ok meta) × (meta.rate ≡ rate) × (meta.effective_date ≡ d)

direct_first :
    (first second : Result (Option FxRateMetadata)) (next : Result FxRateMetadata)
    {meta : FxRateMetadata}
    → first ≡ ok (some meta)
    → or_else (or_reciprocal first second) next ≡ ok meta
direct_first first second next e = ap (λ r. or_else (or_reciprocal r second) next) e

exact-resolve_path :
    (today : Date) (fx : FxEngine) (frm to : String) (d : Date) (rate : Rate)
    → lookup (d, (frm, to)) fx.index ≡ some rate
    → ResolvesTo (resolve_path today fx frm to d) rate d
unfolding resolve_path resolve_direct_or_reciprocal resolve_single_pair exact_or_prevailing
exact-resolve_path today fx frm to d rate found =
    let single = ap (exact_or_prevailing fx (frm, to) d (ltb today d)) found in
    (_, direct_first _ _ _ single, refl, refl)

lookup-add_rate :
    (rate_date : Date) (from_currency to_currency : String) (rate : Rate) (fx : FxEngine)
    → lookup
        (rate_date, (normalise from_currency, normalise to_currency))
        (FxEngine.index (add_rate rate_date from_currency to_currency rate fx))
      ≡ some rate
unfolding add_rate
lookup-add_rate rate_date from_currency to_currency rate fx =
    let key : Date × Pair = (rate_date, (normalise from_currency, normalise to_currency)) in
    let itself = (pair_eq.beq_iff key key).1 refl in
    lookup-insert key key rate fx.index ∙ rw itself refl

-- A rate between two currencies that differ, once added, is the one resolved on its date, whatever
-- the engine held before.
pub add_rate-resolve_rate :
    (today rate_date : Date) (from_currency to_currency : String) (rate : Rate) (fx : FxEngine)
    → (normalise from_currency == normalise to_currency) ≡ false
    → ResolvesTo
        (resolve_rate today
          (add_rate rate_date from_currency to_currency rate fx)
          from_currency
          to_currency
          rate_date)
        rate
        rate_date
unfolding resolve_rate
add_rate-resolve_rate today rate_date from_currency to_currency rate fx differ = rw differ (
    exact-resolve_path today (add_rate rate_date from_currency to_currency rate fx) _ _ rate_date
      rate (lookup-add_rate rate_date from_currency to_currency rate fx))
