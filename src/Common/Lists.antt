-- ===== src/Common/Lists.antt =====
-- Lists measured and indexed by native numbers, and predicates over their elements.
use Prim.Native.Nat.{ℕ, zero, suc, ◌+◌}
use Prim.Native.Nat.{◌<◌}
use mathlib.Core.Option.{some-injective}
use mathlib.Core.Bool.{false≢true}
use mathlib.Core.Path.{sym, ◌∙◌, refl, ◌≡◌, refl}
use mathlib.Core.Logic.{◌⊎◌, inl, inr}
use mathlib.Core.Bool.{Bool, true, false, ◌&&◌, ◌||◌}
use mathlib.Core.List.{List, [], ◌∷◌, ◌++◌, map}
use mathlib.Core.Option.{Option, none, some}
use native.Mathlib.Omega.{arith}
use buy_or_wait_ai_advisor.Common.Tests.{&&-true, Bool-cases, if◌then◌else◌}

module _ {ℓ} {A : Type ℓ} where
  abbrev pub length : List A → ℕ
  length [] = 0
  length (x ∷ xs) = suc (length xs)

  abbrev pub get_elem? : List A → ℕ → Option A
  get_elem? [] i = none
  get_elem? (x ∷ xs) zero = some x
  get_elem? (x ∷ xs) (suc i) = get_elem? xs i

  abbrev pub drop : ℕ → List A → List A
  drop zero xs = xs
  drop (suc n) [] = []
  drop (suc n) (x ∷ xs) = drop n xs

  abbrev pub take : ℕ → List A → List A
  take zero xs = []
  take (suc n) [] = []
  take (suc n) (x ∷ xs) = x ∷ take n xs

  -- `[x for x in xs if p(x)]`
  abbrev pub select : (A → Bool) → List A → List A
  select p [] = []
  select p (x ∷ xs) = let rest = select p xs in if p x then x ∷ rest else rest

  -- `any(p(x) for x in xs)`
  abbrev pub any_of : (A → Bool) → List A → Bool
  any_of p [] = false
  any_of p (x ∷ xs) = p x || any_of p xs

  -- `all(p(x) for x in xs)`
  abbrev pub all_of : (A → Bool) → List A → Bool
  all_of p [] = true
  all_of p (x ∷ xs) = p x && all_of p xs

  -- `next((x for x in xs if p(x)), None)`
  abbrev pub first_of_list : (A → Bool) → List A → Option A
  first_of_list p [] = none
  first_of_list p (x ∷ xs) = let rest = first_of_list p xs in if p x then some x else rest

  abbrev pub All {κ} : (A → Type κ) → List A → Type κ
  All P [] = Unit
  All P (x ∷ xs) = P x × All P xs

  pub length-append : (xs ys : List A) → length (xs ++ ys) ≡ length xs + length ys
  length-append [] ys = omega arith
  length-append (x ∷ xs) ys = omega (arith, length-append xs ys)

  pub All-append {κ} : (P : A → Type κ) (xs ys : List A) → All P xs → All P ys → All P (xs ++ ys)
  All-append P [] ys hx hy = hy
  All-append P (x ∷ xs) ys hx hy = (hx.0, All-append P xs ys hx.1 hy)

  pub All-select : (p : A → Bool) (xs : List A) → All (λ x. p x ≡ true) (select p xs)
  All-select p [] = tt
  All-select p (x ∷ xs) = elim (Bool-cases (p x)) [
    | inl e ↦ ground (arith, All-select p xs)
    | inr e ↦ ground (arith, All-select p xs)
  ]

-- Membership with its position, by recursion on the list.
abbrev pub IsIn : {A : Type 0} → A → List A → Type 0
IsIn a [] = ⊥
IsIn a (x ∷ xs) = (a ≡ x) ⊎ IsIn a xs

pub All-IsIn : {A : Type 0} (P : A → Type 0) (a : A) (xs : List A) → All P xs → IsIn a xs → P a
All-IsIn P a [] h m = elim m [ ]
All-IsIn P a (x ∷ xs) h (inl e) = rw e h.0
All-IsIn P a (x ∷ xs) h (inr m) = All-IsIn P a xs h.1 m

-- What holds of every member holds of all.
pub All-of_IsIn :
    {A : Type 0} (P : A → Type 0) (xs : List A) → ((a : A) → IsIn a xs → P a) → All P xs
All-of_IsIn P [] h = tt
All-of_IsIn P (x ∷ xs) h = (h x (inl refl), All-of_IsIn P xs (λ a m. h a (inr m)))

-- A predicate on all elements, read off and built up by position.
pub All-get_elem? :
    {A : Type 0} (P : A → Type 0) (xs : List A) (i : ℕ) {x : A}
    → All P xs
    → get_elem? xs i ≡ some x
    → P x
All-get_elem? P [] i h e = cc
All-get_elem? P (y ∷ ys) zero h e = rw (← some-injective _ _ e) h.0
All-get_elem? P (y ∷ ys) (suc i) h e = All-get_elem? P ys i h.1 e

pub All-of_get_elem? :
    {A : Type 0} (P : A → Type 0) (xs : List A)
    → ((i : ℕ) (x : A) → get_elem? xs i ≡ some x → P x)
    → All P xs
All-of_get_elem? P [] h = tt
All-of_get_elem? P (x ∷ xs) h = (h 0 x refl, All-of_get_elem? P xs (λ i y e. h (suc i) y e))

pub get_elem?-lt :
    {A : Type 0} (xs : List A) (i : ℕ) {x : A} → get_elem? xs i ≡ some x → i < length xs
get_elem?-lt [] i e = cc
get_elem?-lt (y ∷ ys) zero e = omega arith
get_elem?-lt (y ∷ ys) (suc i) e = omega (arith, get_elem?-lt ys i e)

pub List-cases {ℓ} : {A : Type ℓ} (l : List A) → (l ≡ []) ⊎ ((x : A) × (xs : List A) × (l ≡ x ∷ xs))
List-cases [] = inl refl
List-cases (x ∷ xs) = inr (x, xs, refl)

IsIn-step :
    {A : Type 0} (p : A → Bool) (a x : A) (xs : List A)
    → p x ≡ true
    → IsIn a (x ∷ select p xs)
    → (IsIn a (select p xs) → IsIn a xs × (p a ≡ true))
    → IsIn a (x ∷ xs) × (p a ≡ true)
IsIn-step p a x xs e (inl same) later = (inl same, rw same e)
IsIn-step p a x xs e (inr found) later = (inr (later found).0, (later found).1)

-- What is selected was there and passed the test.
pub select-IsIn :
    {A : Type 0} (p : A → Bool) (a : A) (xs : List A)
    → IsIn a (select p xs)
    → IsIn a xs × (p a ≡ true)
select-IsIn p a [] h = elim h [ ]
select-IsIn p a (x ∷ xs) h = elim (Bool-cases (p x)) [
  | inl e ↦
      let kept : IsIn a (x ∷ select p xs) = rw e at h in
      IsIn-step p a x xs e kept (select-IsIn p a xs)
  | inr e ↦
      let later : IsIn a (select p xs) = rw e at h in
      let (found, passes) = select-IsIn p a xs later in (inr found, passes)
]

pub select-All :
    {A : Type 0} (Q : A → Type 0) (p : A → Bool) (xs : List A)
    → All Q (select p xs)
    → All (λ y. p y ≡ true → Q y) xs
select-All Q p [] h = tt
select-All Q p (x ∷ xs) h = elim (Bool-cases (p x)) [
  | inl e ↦
      let kept : All Q (x ∷ select p xs) = rw e at h in (λ _. kept.0, select-All Q p xs kept.1)
  | inr e ↦
      let later : All Q (select p xs) = rw e at h in
      (λ t. absurd (false≢true (sym e ∙ t)), select-All Q p xs later)
]

pub first_of_list-some :
    {A : Type 0} (p : A → Bool) (xs : List A) {a : A}
    → first_of_list p xs ≡ some a
    → IsIn a xs × (p a ≡ true)
first_of_list-some p [] e = cc
first_of_list-some p (x ∷ xs) e = elim (Bool-cases (p x)) [
  | inl passes ↦
      let same = some-injective _ _ (rw passes at e) in (inl (sym same), rw (← same) passes)
  | inr fails ↦ let (found, passes) = first_of_list-some p xs (rw fails at e) in (inr found, passes)
]

pub All-imp :
    {A : Type 0} (P Q : A → Type 0) (xs : List A) → ((a : A) → P a → Q a) → All P xs → All Q xs
All-imp P Q [] f h = tt
All-imp P Q (x ∷ xs) f h = (f x h.0, All-imp P Q xs f h.1)

pub All-all_of :
    {A : Type 0} (p : A → Bool) (xs : List A) → all_of p xs ≡ true → All (λ x. p x ≡ true) xs
All-all_of p [] h = tt
All-all_of p (x ∷ xs) h = let (here, rest) = &&-true (p x) _ h in (here, All-all_of p xs rest)

-- A selection keeps what holds of all.
pub All-of-select {ℓ κ} :
    {A : Type ℓ} (P : A → Type κ) (p : A → Bool) (xs : List A) → All P xs → All P (select p xs)
All-of-select P p [] h = tt
All-of-select P p (x ∷ xs) h = elim (Bool-cases (p x)) [
  | inl e ↦ rw e (h.0, All-of-select P p xs h.1)
  | inr e ↦ rw e (All-of-select P p xs h.1)
]

pub All-map {ℓ κ ι} :
    {A : Type ℓ} {B : Type κ} (P : A → Type ι) (Q : B → Type ι) (f : A → B) (xs : List A)
    → ((a : A) → P a → Q (f a))
    → All P xs
    → All Q (map f xs)
All-map P Q f [] h all = tt
All-map P Q f (x ∷ xs) h all = (h x all.0, All-map P Q f xs h all.1)

pub length-map : {A B : Type 0} (f : A → B) (xs : List A) → length (map f xs) ≡ length xs
length-map f [] = refl
length-map f (x ∷ xs) = omega (arith, length-map f xs)

abbrev pub prepend : {A : Type 0} → A → List A → List A
prepend x xs = x ∷ xs
