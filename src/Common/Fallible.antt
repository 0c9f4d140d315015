-- ===== src/Common/Fallible.antt =====
-- Fallible code: a value, or the exception that the code raises.
use mathlib.Core.Path.{◌≡◌, ap, refl}
use mathlib.Core.Logic.{inl, inr}
use buy_or_wait_ai_advisor.Common.Lists.{All, All-append, All-imp, IsIn}
use mathlib.Core.List.{List, [], ◌∷◌, ◌++◌}

pub data Error : Type 0 where
  -- `min()` or `max()` of no values
  value_error : Error
  -- `IndexError`
  index_error : Error
  -- a loop of the model used up its rounds: the code's loop does not end either, or needs more
  out_of_fuel : Error
  -- `KeyError`
  key_error : Error
  -- `FXRateMissingError`
  rate_missing : Error
  -- `IngestionSecurityError` and its subclasses
  security_error file_oversized invalid_file_type malicious_content duplicate_file : Error
  -- `InvalidPurchaseError`
  invalid_purchase : Error
  -- `TenantAccessError`
  tenant_access : Error
  -- `MultipleResultsFound` of `scalar_one_or_none`
  multiple_results : Error
  -- `decimal.InvalidOperation`
  invalid_operation : Error
  type_error attribute_error : Error

pub data Result {ℓ} (A : Type ℓ) : Type ℓ where
  err : Error → Result A
  ok : A → Result A

abbrev pub map_ok {ℓ κ} : {A : Type ℓ} {B : Type κ} → (A → B) → Result A → Result B
map_ok f (ok a) = ok (f a)
map_ok f (err e) = err e

infixl 5 ◌>>=◌
abbrev pub ◌>>=◌ {ℓ κ} : {A : Type ℓ} {B : Type κ} → Result A → (A → Result B) → Result B
err e >>= rest = err e
ok a >>= rest = rest a

pub ok-injective {ℓ} : {A : Type ℓ} {a b : A} → ok a ≡ ok b → a ≡ b
ok-injective e = cc

pub >>=-ok {ℓ κ} :
    {A : Type ℓ} {B : Type κ} (m : Result A) (rest : A → Result B) {a : A}
    → m ≡ ok a
    → (m >>= rest) ≡ rest a
>>=-ok m rest e = ap (λ r. r >>= rest) e

pub >>=-err {ℓ κ} :
    {A : Type ℓ} {B : Type κ} (m : Result A) (rest : A → Result B) {e : Error}
    → m ≡ err e
    → (m >>= rest) ≡ err e
>>=-err m rest h = ap (λ r. r >>= rest) h

-- A bind that returned: so did its first part.
pub >>=-eq-ok {ℓ κ} :
    {A : Type ℓ} {B : Type κ} (m : Result A) (rest : A → Result B) {b : B}
    → (m >>= rest) ≡ ok b
    → (a : A) × (m ≡ ok a) × (rest a ≡ ok b)
>>=-eq-ok (err e) rest h = cc
>>=-eq-ok (ok a) rest h = (a, refl, h)

-- `for x in xs: out.extend(f(x))`, where `f` may raise.
abbrev pub flat_map_result : {A B : Type 0} → (A → Result (List B)) → List A → Result (List B)
flat_map_result f [] = ok []
flat_map_result f (x ∷ xs) = do head ← f x; rest ← flat_map_result f xs; ok (head ++ rest)

-- A predicate on all elements of a list that may not have been returned.
abbrev pub AllOk : {A : Type 0} → (A → Type 0) → Result (List A) → Type 0
AllOk P (ok xs) = All P xs
AllOk P (err e) = Unit

pub AllOk-append :
    {A : Type 0} (P : A → Type 0) (r s : Result (List A))
    → AllOk P r
    → AllOk P s
    → AllOk P (do xs ← r; ys ← s; ok (xs ++ ys))
AllOk-append P (ok xs) (ok ys) h k = All-append P xs ys h k
AllOk-append P (ok xs) (err e) h k = tt
AllOk-append P (err e) s h k = tt

pub AllOk-flat_map_result :
    {A B : Type 0} (P : B → Type 0) (f : A → Result (List B)) (xs : List A)
    → ((x : A) → IsIn x xs → AllOk P (f x))
    → AllOk P (flat_map_result f xs)
AllOk-flat_map_result P f [] h = tt
AllOk-flat_map_result P f (x ∷ xs) h =
    AllOk-append P (f x) (flat_map_result f xs) (h x (inl refl))
      (AllOk-flat_map_result P f xs (λ y m. h y (inr m)))

-- Read off a list that was returned.
pub All-of_AllOk :
    {A : Type 0} (P : A → Type 0) (r : Result (List A)) {xs : List A}
    → AllOk P r
    → r ≡ ok xs
    → All P xs
All-of_AllOk P r all e = rw e at all

-- The rule for a bind: the continuation may use that its argument was returned.
pub AllOk-bind :
    {A B : Type 0} (P : B → Type 0) (r : Result A) (f : A → Result (List B))
    → ((a : A) → r ≡ ok a → AllOk P (f a))
    → AllOk P (r >>= f)
AllOk-bind P (ok a) f h = h a refl
AllOk-bind P (err e) f h = tt

pub AllOk-imp :
    {A : Type 0} (P Q : A → Type 0) (r : Result (List A))
    → ((a : A) → P a → Q a)
    → AllOk P r
    → AllOk Q r
AllOk-imp P Q (ok xs) f all = All-imp P Q xs f all
AllOk-imp P Q (err e) f all = tt
