-- ===== src/Common/Sorting.antt =====
-- Python's stable sort by a test `a <= b`, the orders that the program sorts by, and what the first
-- element of a sorted list is.
use mathlib.Core.Path.{subst, sym, ◌≡◌, refl}
use mathlib.Core.Logic.{◌⊎◌, inl, inr}
use mathlib.Core.Bool.{Bool, true, false}
use mathlib.Core.Option.{Option, none, some}
use mathlib.Core.List.{List, [], ◌∷◌}
use Prim.Native.Nat.{ℕ}
use native.Mathlib.Omega.{arith}
use buy_or_wait_ai_advisor.Common.Tests.{leb, if◌then◌else◌}
use buy_or_wait_ai_advisor.Common.Int.{ℤ, leb_ℤ}
use buy_or_wait_ai_advisor.Common.Lists.{All, IsIn}

-- A total preorder by a Boolean test, such as the comparison of two keys.
pub record Order (A : Type 0) : Type 0 where
  pub le : A → A → Bool
  pub total : (a b : A) → (le a b ≡ true) ⊎ (le b a ≡ true)
  pub trans : (a b c : A) → le a b ≡ true → le b c ≡ true → le a c ≡ true

pub leb_total : (a b : ℕ) → (leb a b ≡ true) ⊎ (leb b a ≡ true)
leb_total a b = ground arith

pub leb_trans : (a b c : ℕ) → leb a b ≡ true → leb b c ≡ true → leb a c ≡ true
leb_trans a b c h k = ground arith

pub leb_ℤ_total : (a b : ℤ) → (leb_ℤ a b ≡ true) ⊎ (leb_ℤ b a ≡ true)
leb_ℤ_total a b = ground arith

pub leb_ℤ_trans : (a b c : ℤ) → leb_ℤ a b ≡ true → leb_ℤ b c ≡ true → leb_ℤ a c ≡ true
leb_ℤ_trans a b c h k = ground arith

abbrev pub nat_order : Order ℕ
nat_order = record { le = leb; total = leb_total; trans = leb_trans }

abbrev pub int_order : Order ℤ
int_order = record { le = leb_ℤ; total = leb_ℤ_total; trans = leb_ℤ_trans }

-- Tuples are compared lexicographically.
abbrev pub lex_le : {A B : Type 0} → Order A → Order B → A × B → A × B → Bool
lex_le o p (a, b) (a', b') = if o.le a a' then (if o.le a' a then p.le b b' else true) else false

pub lex_total :
    {A B : Type 0} (o : Order A) (p : Order B) (x y : A × B)
    → (lex_le o p x y ≡ true) ⊎ (lex_le o p y x ≡ true)
lex_total o p (a, b) (a', b') = ground (arith, o.total a a', p.total b b')

pub lex_trans :
    {A B : Type 0} (o : Order A) (p : Order B) (x y z : A × B)
    → lex_le o p x y ≡ true
    → lex_le o p y z ≡ true
    → lex_le o p x z ≡ true
lex_trans o p (a, b) (a', b') (a'', b'') h k =
    ground (arith, o.trans a a' a'', o.trans a'' a a', o.trans a' a'' a, p.trans b b' b'')

abbrev pub lex_order : {A B : Type 0} → Order A → Order B → Order (A × B)
lex_order o p = record { le = lex_le o p; total = lex_total o p; trans = lex_trans o p }

-- The same order on what a key function returns.
abbrev pub order_by : {A K : Type 0} → Order K → (A → K) → Order A
order_by o key = record {
  le = λ a b. o.le (key a) (key b);
  total = λ a b. o.total (key a) (key b);
  trans = λ a b c. o.trans (key a) (key b) (key c);
}

module _ {A : Type 0} (le : A → A → Bool) where
  unfoldable pub sort_insert : A → List A → List A
  sort_insert x [] = x ∷ []
  sort_insert x (y ∷ ys) = let rest = sort_insert x ys in if le x y then x ∷ y ∷ ys else y ∷ rest

  unfoldable pub sort_by : List A → List A
  unfolding sort_insert
  sort_by [] = []
  sort_by (x ∷ xs) = sort_insert x (sort_by xs)

-- `xs[0]` of a list, if there is one.
unfoldable pub head_of {ℓ} : {A : Type ℓ} → List A → Option A
head_of [] = none
head_of (x ∷ xs) = some x

-- The first of the least elements: what sorting brings to the front.
unfoldable pub least_of : {A : Type 0} → (A → A → Bool) → A → List A → A
least_of le x [] = x
least_of le x (y ∷ ys) = let rest = least_of le y ys in if le x rest then x else rest

module _ {A : Type 0} (o : Order A) where
  head_of-sort_insert :
      (x y : A) (l : List A)
      → head_of l ≡ some y
      → head_of (sort_insert o.le x l) ≡ some (if o.le x y then x else y)
  unfolding sort_insert head_of
  head_of-sort_insert x y [] e = cc
  head_of-sort_insert x y (z ∷ l) e = ground arith

  pub head_of-sort_by :
      (x : A) (xs : List A) → head_of (sort_by o.le (x ∷ xs)) ≡ some (least_of o.le x xs)
  unfolding sort_by least_of
  head_of-sort_by x [] = unfold head_of sort_insert in refl
  head_of-sort_by x (y ∷ ys) =
      head_of-sort_insert x (least_of o.le y ys) (sort_by o.le (y ∷ ys)) (head_of-sort_by y ys)

  -- It is an element, and none of the others is less.
  least_of-cases :
      (x y : A) (ys : List A)
      → let rest = least_of o.le y ys in
        let least = least_of o.le x (y ∷ ys) in
        ((o.le x rest ≡ true) × (least ≡ x)) ⊎ ((o.le rest x ≡ true) × (least ≡ rest))
  unfolding least_of
  least_of-cases x y ys = ground (arith, o.total x (least_of o.le y ys))

  pub least_of-IsIn : (x : A) (xs : List A) → IsIn (least_of o.le x xs) (x ∷ xs)
  least_of-IsIn x [] = unfold least_of in inl refl
  least_of-IsIn x (y ∷ ys) = elim (least_of-cases x y ys) [
    | inl (_, e) ↦ inl e
    | inr (_, e) ↦ subst (λ z. IsIn z (x ∷ y ∷ ys)) (sym e) (inr (least_of-IsIn y ys))
  ]

  le_refl : (x : A) → o.le x x ≡ true
  le_refl x = ground (arith, o.total x x)

  All-le_trans :
      (a b : A) (xs : List A)
      → o.le a b ≡ true
      → All (λ y. o.le b y ≡ true) xs
      → All (λ y. o.le a y ≡ true) xs
  All-le_trans a b [] h all = tt
  All-le_trans a b (y ∷ ys) h all = (o.trans a b y h all.0, All-le_trans a b ys h all.1)

  below :
      (xs : List A) {a b : A}
      → a ≡ b
      → All (λ y. o.le a y ≡ true) xs
      → All (λ y. o.le b y ≡ true) xs
  below xs e h = subst (λ z. All (λ y. o.le z y ≡ true) xs) e h

  pub least_of-le : (x : A) (xs : List A) → All (λ y. o.le (least_of o.le x xs) y ≡ true) (x ∷ xs)
  least_of-le x [] = unfold least_of in (le_refl x, tt)
  least_of-le x (y ∷ ys) = elim (least_of-cases x y ys) [
    | inl (h, e) ↦
        below (x ∷ y ∷ ys) (sym e)
          (le_refl x, All-le_trans x (least_of o.le y ys) (y ∷ ys) h (least_of-le y ys))
    | inr (h, e) ↦ below (x ∷ y ∷ ys) (sym e) (h, least_of-le y ys)
  ]
