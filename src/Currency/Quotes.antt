-- ===== src/Currency/Quotes.antt =====
-- What a resolved rate rests on: a chain of the latest rates in the table.
use mathlib.Core.Path.{subst}
use buy_or_wait_ai_advisor.Common.{
  Bool, Bool-cases, Date, Option, Result, String, ap, arith, divide_signed, eqb_ℤ, false,
  if◌then◌else◌, inl, inr, ltb, map_ok, none, ok, pos, refl, some, sym, true, ◌*ℤ◌, ◌∙◌, ◌≡◌, ◌≤◌,
  ◌⊎◌,
}
use buy_or_wait_ai_advisor.Currency.Fx.{
  FxEngine, FxRateMetadata, Rate, bridge_legs, bridged, inverse_of, inverted, or_reciprocal,
  reciprocal, resolve_bridge, resolve_direct_or_reciprocal,
}
use buy_or_wait_ai_advisor.Currency.Dates.{IsIndexed}
use buy_or_wait_ai_advisor.Currency.Latest.{
  IsLatest, IsUnknown, SingleOutcome, resolve_single_pair-SingleOutcome,
}

pub data Quote (fx : FxEngine) (eval_date : Date) : String → String → Rate → Date → Type 0 where
  same : (frm to : String) → frm ≡ to → Quote fx eval_date frm to (pos 100_000_000) eval_date
  direct :
      (frm to : String) (rate : Rate) (d : Date)
      → IsLatest fx (frm, to) eval_date rate d
      → Quote fx eval_date frm to rate d
  inverse :
      (frm to : String) (rate : Rate) (d : Date)
      → IsUnknown fx (frm, to) eval_date
      → IsLatest fx (to, frm) eval_date rate d
      → eqb_ℤ rate (pos 0) ≡ false
      → Quote fx eval_date frm to (reciprocal rate) d
  over :
      (frm middle to : String) (rate₁ rate₂ : Rate) (d₁ d₂ : Date)
      → (middle ≡ "USD") ⊎ (middle ≡ "EUR")
      → Quote fx eval_date frm middle rate₁ d₁
      → Quote fx eval_date middle to rate₂ d₂
      → Quote fx eval_date frm to
          (divide_signed (rate₁ *ℤ rate₂) 100_000_000)
          (if ltb d₂ d₁ then d₂ else d₁)

abbrev pub IsQuoted : FxEngine → Date → String → String → FxRateMetadata → Type 0
IsQuoted fx eval_date frm to meta =
    (meta.from_currency ≡ frm)
    × (meta.to_currency ≡ to)
    × Quote fx eval_date frm to meta.rate meta.effective_date

-- No date of a quote is later than the day of evaluation.
pub Quote-le :
    (fx : FxEngine) (eval_date : Date) {frm to : String} {rate : Rate} {d : Date}
    → Quote fx eval_date frm to rate d
    → d ≤ eval_date
Quote-le fx eval_date (same frm to e) = omega arith
Quote-le fx eval_date (direct frm to rate d latest) = latest.1
Quote-le fx eval_date (inverse frm to rate d unknown latest h) = latest.1
Quote-le fx eval_date (over frm middle to rate₁ rate₂ d₁ d₂ h leg₁ leg₂) =
    ground (arith, Quote-le fx eval_date leg₁, Quote-le fx eval_date leg₂)

-- A quote, or nothing without an error.
abbrev pub LegOutcome : FxEngine → Date → String → String → Result (Option FxRateMetadata) → Type 0
LegOutcome fx eval_date frm to result =
    ((meta : FxRateMetadata) × (result ≡ ok (some meta)) × IsQuoted fx eval_date frm to meta)
    ⊎ (result ≡ ok none)

inverted-LegOutcome :
    (fx : FxEngine) (frm to : String) (eval_date : Date) (inv : FxRateMetadata)
    → IsUnknown fx (frm, to) eval_date
    → inv.from_currency ≡ to
    → inv.to_currency ≡ frm
    → IsLatest fx (to, frm) eval_date inv.rate inv.effective_date
    → LegOutcome fx eval_date frm to (ok (inverted (some inv)))
inverted-LegOutcome fx frm to eval_date inv unknown from_e to_e latest =
    elim (Bool-cases (eqb_ℤ inv.rate (pos 0))) [
      | inl zero_rate ↦ inr (unfold inverted in rw zero_rate refl)
      | inr other ↦ inl (
        inverse_of inv,
        (unfold inverted in rw other refl),
        unfold inverse_of in
            (to_e, from_e, inverse frm to inv.rate inv.effective_date unknown latest other),
      )
    ]

or_reciprocal-LegOutcome :
    (fx : FxEngine) (frm to : String) (eval_date : Date)
    (first second : Result (Option FxRateMetadata))
    → SingleOutcome fx (frm, to) eval_date first
    → SingleOutcome fx (to, frm) eval_date second
    → LegOutcome fx eval_date frm to (or_reciprocal first second)
or_reciprocal-LegOutcome fx frm to eval_date first second (inl (meta, e, from_e, to_e, latest))
      there =
    inl (
      meta,
      ap (λ r. or_reciprocal r second) e,
      (from_e, to_e, direct frm to meta.rate meta.effective_date latest),
    )
or_reciprocal-LegOutcome fx frm to eval_date first second (inr (e, unknown))
      (inl (inv, k, from_e, to_e, latest)) =
    let returned = ap (λ r. or_reciprocal r second) e ∙ ap (map_ok inverted) k in
    subst (LegOutcome fx eval_date frm to) (sym returned)
      (inverted-LegOutcome fx frm to eval_date inv unknown from_e to_e latest)
or_reciprocal-LegOutcome fx frm to eval_date first second (inr (e, unknown)) (inr (k, _)) =
    inr (ap (λ r. or_reciprocal r second) e ∙ ap (map_ok inverted) k ∙ unfold inverted in refl)

pub direct_or_reciprocal-LegOutcome :
    (today : Date) (fx : FxEngine) (frm to : String) (eval_date : Date)
    → IsIndexed fx
    → LegOutcome fx eval_date frm to (resolve_direct_or_reciprocal today fx frm to eval_date)
unfolding resolve_direct_or_reciprocal
direct_or_reciprocal-LegOutcome today fx frm to eval_date indexed =
    or_reciprocal-LegOutcome fx frm to eval_date _ _
      (resolve_single_pair-SingleOutcome today fx (frm, to) eval_date indexed)
      (resolve_single_pair-SingleOutcome today fx (to, frm) eval_date indexed)

bridge_legs-returned :
    (middle : String) (first second : Result (Option FxRateMetadata))
    {leg1 leg2 : Option FxRateMetadata}
    → first ≡ ok leg1
    → second ≡ ok leg2
    → bridge_legs middle first second ≡ ok (bridged middle leg1 leg2)
bridge_legs-returned middle first second {leg1} e k =
    ap (λ r. bridge_legs middle r second) e ∙ ap (bridge_legs middle (ok leg1)) k

bridge_legs-LegOutcome :
    (fx : FxEngine) (middle frm to : String) (eval_date : Date)
    (first second : Result (Option FxRateMetadata))
    → (middle ≡ "USD") ⊎ (middle ≡ "EUR")
    → LegOutcome fx eval_date frm middle first
    → LegOutcome fx eval_date middle to second
    → LegOutcome fx eval_date frm to (bridge_legs middle first second)
unfolding bridged
bridge_legs-LegOutcome fx middle frm to eval_date first second h (inl (leg1, e, (f₁, t₁, q₁)))
      (inl (leg2, k, (f₂, t₂, q₂))) =
    inl (
      _,
      bridge_legs-returned middle first second e k,
      (
        f₁,
        t₂,
        over frm middle to leg1.rate leg2.rate leg1.effective_date leg2.effective_date h q₁ q₂,
      ),
    )
bridge_legs-LegOutcome fx middle frm to eval_date first second h (inl (leg1, e, _)) (inr k) =
    inr (bridge_legs-returned middle first second e k)
bridge_legs-LegOutcome fx middle frm to eval_date first second h (inr e) (inl (leg2, k, _)) =
    inr (bridge_legs-returned middle first second e k)
bridge_legs-LegOutcome fx middle frm to eval_date first second h (inr e) (inr k) =
    inr (bridge_legs-returned middle first second e k)

if-LegOutcome :
    (fx : FxEngine) (frm to : String) (eval_date : Date) (b : Bool)
    (result : Result (Option FxRateMetadata))
    → LegOutcome fx eval_date frm to result
    → LegOutcome fx eval_date frm to (if b then result else ok none)
if-LegOutcome fx frm to eval_date true result h = h
if-LegOutcome fx frm to eval_date false result h = inr refl

pub resolve_bridge-LegOutcome :
    (today : Date) (fx : FxEngine) (middle frm to : String) (eval_date : Date)
    → IsIndexed fx
    → (middle ≡ "USD") ⊎ (middle ≡ "EUR")
    → LegOutcome fx eval_date frm to (resolve_bridge today fx middle frm to eval_date)
unfolding resolve_bridge
resolve_bridge-LegOutcome today fx middle frm to eval_date indexed h =
    if-LegOutcome fx frm to eval_date _ _ (
      bridge_legs-LegOutcome fx middle frm to eval_date _ _ h
        (direct_or_reciprocal-LegOutcome today fx frm middle eval_date indexed)
        (direct_or_reciprocal-LegOutcome today fx middle to eval_date indexed))
