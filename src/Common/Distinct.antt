-- ===== src/Common/Distinct.antt =====
-- Lists without repetition.
use mathlib.Core.Path.{◌≡◌, refl, sym, ap, ◌∙◌, subst}
use mathlib.Core.Logic.{◌⊎◌, inl, inr}
use mathlib.Core.Bool.{false, false≢true, ◌||◌}
use mathlib.Core.List.{List, [], ◌∷◌, ◌++◌}
use buy_or_wait_ai_advisor.Common.Lists.{IsIn}
use buy_or_wait_ai_advisor.Common.Keys.{Eq, contains}
use native.Mathlib.Omega.{arith}

module _ {A : Type 0} where
  abbrev pub AllDistinct : List A → Type 0
  AllDistinct [] = Unit
  AllDistinct (x ∷ xs) = (¬ IsIn x xs) × AllDistinct xs

  pub IsIn-append : (a : A) (xs ys : List A) → IsIn a (xs ++ ys) → IsIn a xs ⊎ IsIn a ys
  IsIn-append a [] ys m = inr m
  IsIn-append a (x ∷ xs) ys (inl e) = inl (inl e)
  IsIn-append a (x ∷ xs) ys (inr m) = elim (IsIn-append a xs ys m) [
    | inl there ↦ inl (inr there)
    | inr later ↦ inr later
  ]

  pub AllDistinct-append :
      (xs ys : List A)
      → AllDistinct xs
      → AllDistinct ys
      → ((a : A) → IsIn a xs → ¬ IsIn a ys)
      → AllDistinct (xs ++ ys)
  AllDistinct-append [] ys hx hy apart = hy
  AllDistinct-append (x ∷ xs) ys hx hy apart = (
    λ m. elim (IsIn-append x xs ys m) [
      | inl there ↦ hx.0 there
      | inr later ↦ apart x (inl refl) later
    ],
    AllDistinct-append xs ys hx.1 hy (λ a m. apart a (inr m)),
  )

  pub AllDistinct-append_one :
      (xs : List A) (a : A) → AllDistinct xs → ¬ IsIn a xs → AllDistinct (xs ++ a ∷ [])
  AllDistinct-append_one xs a hx new =
      AllDistinct-append xs (a ∷ []) hx (λ m. absurd m, tt)
        (λ b m one. elim one [
          | inl e ↦ new (subst (λ z. IsIn z xs) e m)
          | inr none_left ↦ absurd none_left
        ])

  pub contains-IsIn : ⦃e : Eq A⦄ (a : A) (xs : List A) → contains a xs ≡ false → ¬ IsIn a xs
  contains-IsIn a [] h m = m
  contains-IsIn ⦃e⦄ a (x ∷ xs) h (inl same) =
      absurd (false≢true (sym h ∙ ap (λ b. b || contains a xs) ((e.beq_iff a x).1 same)))
  contains-IsIn a (x ∷ xs) h (inr m) = contains-IsIn a xs (ground arith) m
