-- ===== src/Common/Keys.antt =====
-- Equality tests as an interface, and Python's dict over keys that have one.
use Prim.Native.Nat.{ℕ}
use Prim.Native.String.{String}
use text.Mathlib.Text.{◌==◌ as str_eq}
use text.Mathlib.TextEquality.{eq_iff}
use mathlib.Core.Path.{◌≡◌, refl, ◌∙◌}
use mathlib.Core.Logic.{◌↔◌}
use mathlib.Core.Bool.{Bool, true, false, ◌&&◌, ◌||◌}
use mathlib.Core.Option.{Option, none, some}
use mathlib.Core.List.{List, [], ◌∷◌}
use native.Mathlib.Omega.{arith}
use mathlib.Core.Logic.{inl, inr}
use buy_or_wait_ai_advisor.Common.Tests.{Bool-cases, eqb, eqb_iff, if◌then◌else◌}

pub record Eq {ℓ} (A : Type ℓ) : Type ℓ where
  pub beq : A → A → Bool
  pub beq_iff : (x y : A) → (beq x y ≡ true) ↔ (x ≡ y)

-- Python's `==`
infix 50 ◌==◌
abbrev pub ◌==◌ {κ} : {K : Type κ} ⦃e : Eq K⦄ → K → K → Bool
◌==◌ ⦃e⦄ j k = e.beq j k

instance abbrev pub string_eq : Eq String
string_eq = record { beq = str_eq; beq_iff = λ s t. eq_iff s t }

instance abbrev pub nat_eq : Eq ℕ
nat_eq = record { beq = eqb; beq_iff = eqb_iff }

module _ {ℓ κ} {A : Type ℓ} {B : Type κ} ⦃d : Eq A⦄ ⦃e : Eq B⦄ where
  abbrev pub pair_beq : A × B → A × B → Bool
  pair_beq (a, b) (a', b') = d.beq a a' && e.beq b b'

  pub pair_beq_iff : (x y : A × B) → (pair_beq x y ≡ true) ↔ (x ≡ y)
  pair_beq_iff (a, b) (a', b') = ground (arith, d.beq_iff a a', e.beq_iff b b')

  instance abbrev pub pair_eq : Eq (A × B)
  pair_eq = record { beq = pair_beq; beq_iff = pair_beq_iff }

-- A dict in insertion order: an assignment to a key that is there keeps its place.
abbrev pub Dict {ℓ κ} : Type ℓ → Type κ → Type (ℓ ⊔ κ)
Dict K V = List (K × V)

-- `a in xs`
abbrev pub contains {ℓ} : {A : Type ℓ} ⦃e : Eq A⦄ → A → List A → Bool
contains a [] = false
contains a (x ∷ xs) = a == x || contains a xs

module _ {ℓ κ} {K : Type ℓ} {V : Type κ} ⦃e : Eq K⦄ where
  -- `d.get(k)`
  unfoldable pub lookup : K → Dict K V → Option V
  lookup k [] = none
  lookup k ((j, v) ∷ d) = let rest = lookup k d in if j == k then some v else rest

  -- `d[k] = v`
  unfoldable pub insert : K → V → Dict K V → Dict K V
  insert k v [] = (k, v) ∷ []
  insert k v ((j, w) ∷ d) = let rest = insert k v d in if j == k then (j, v) ∷ d else (j, w) ∷ rest

  -- `d.get(k, default)`
  unfoldable pub lookup_or : K → V → Dict K V → V
  unfolding lookup
  lookup_or k v d = elim (lookup k d) [ none ↦ v | some w ↦ w ]

  pub lookup-insert :
      (k j : K) (v : V) (d : Dict K V)
      → lookup j (insert k v d) ≡ (if k == j then some v else lookup j d)
  unfolding lookup insert
  lookup-insert k j v [] = refl
  lookup-insert k j v ((i, w) ∷ d) =
      ground (arith, e.beq_iff k j, e.beq_iff i k, e.beq_iff i j, lookup-insert k j v d)

  pub lookup_or-insert :
      (k j : K) (v w : V) (d : Dict K V)
      → lookup_or j w (insert k v d) ≡ (if k == j then v else lookup_or j w d)
  unfolding lookup_or
  lookup_or-insert k j v w d = elim (Bool-cases (k == j)) [
    | inl same ↦ ground (arith, lookup-insert k j v d)
    | inr other ↦ ground (arith, lookup-insert k j v d)
  ]

  -- `d.pop(k, None)`
  unfoldable pub remove : K → Dict K V → Dict K V
  remove k [] = []
  remove k ((j, v) ∷ d) = let rest = remove k d in if j == k then rest else (j, v) ∷ rest

  pub lookup-remove : (k : K) (d : Dict K V) → lookup k (remove k d) ≡ none
  unfolding lookup remove
  lookup-remove k [] = refl
  lookup-remove k ((i, w) ∷ d) = ground (arith, lookup-remove k d)

  pub lookup_or-insert_self : (k : K) (v w : V) (d : Dict K V) → lookup_or k w (insert k v d) ≡ v
  lookup_or-insert_self k v w d = lookup_or-insert k k v w d ∙ rw ((e.beq_iff k k).1 refl) refl

  pub lookup_or-remove : (k : K) (w : V) (d : Dict K V) → lookup_or k w (remove k d) ≡ w
  unfolding lookup_or
  lookup_or-remove k w d = ground (arith, lookup-remove k d)
