-- ===== src/Backend/Ingestion/Security/Files.antt =====
-- Which files are let in: `validate_file_content` of backend/ingestion/security.py.
use mathlib.Core.List.{cons≢nil, head-eq_of_cons-eq, tail-eq_of_cons-eq}
use buy_or_wait_ai_advisor.Common.{
  &&-true, All, Bool, Bool-cases, Eq, IsIn, List, String, [], any_of, arith, contains, eqb, err,
  false, false≢true, file_oversized, if◌then◌else◌, inl, inr, invalid_file_type, length, lower, ltb,
  malicious_content, nat_eq, not, ok, pair_eq, refl, security_error, string_eq, sym, true, ℕ, ◌++◌,
  ◌==◌, ◌↔◌, ◌∙◌, ◌∷◌, ◌≡◌, ◌≤◌,
}
use buy_or_wait_ai_advisor.Backend.Ingestion.Models.{Platform}
use buy_or_wait_ai_advisor.Backend.Ingestion.Security.{
  allowed_extensions, disallowed_magic_bytes, max_file_size_bytes, starts_with,
  validate_file_content,
}

abbrev pub IsPrefix : List ℕ → List ℕ → Type 0
IsPrefix magic content = (rest : List ℕ) × (magic ++ rest ≡ content)

abbrev pub IsAcceptable : Platform → String → List ℕ → Type 0
IsAcceptable lib filename content =
    (1 ≤ length content)
    × (length content ≤ max_file_size_bytes)
    × IsIn (lib.extension (lower filename)) allowed_extensions
    × All (λ magic. ¬ IsPrefix magic content) disallowed_magic_bytes
    × (¬ IsIn 0 content)

starts_with-IsPrefix :
    (content magic : List ℕ) → (starts_with content magic ≡ true) ↔ IsPrefix magic content
unfolding starts_with
starts_with-IsPrefix content [] = (λ h. (content, refl), λ p. refl)
starts_with-IsPrefix [] (m ∷ magic) = (λ h. cc, λ p. absurd (cons≢nil p.1))
starts_with-IsPrefix (c ∷ content) (m ∷ magic) = (
  λ h.
      let (rest, e) = (starts_with-IsPrefix content magic).0 (&&-true (eqb c m) _ h).1 in
      let same : c ≡ m = ground (arith, (&&-true (eqb c m) _ h).0) in (rest, rw (same, e) refl),
  λ p.
      let later = (starts_with-IsPrefix content magic).1 (p.0, tail-eq_of_cons-eq p.1) in
      let same : m ≡ c = head-eq_of_cons-eq p.1 in rw (later, same) (ground arith),
)

-- No element passes the test.
any_of-none :
    {A : Type 0} (p : A → Bool) (P : A → Type 0) (xs : List A)
    → ((a : A) → (p a ≡ true) ↔ P a)
    → (any_of p xs ≡ false) ↔ All (λ a. ¬ P a) xs
any_of-none p P [] same = (λ h. tt, λ h. refl)
any_of-none p P (x ∷ xs) same =
    let rest = any_of-none p P xs same in
    elim (Bool-cases (p x)) [
      | inl passes ↦ (
        λ h.
            let here : any_of p (x ∷ xs) ≡ true = rw passes refl in
            absurd (false≢true (sym h ∙ here)),
        λ all. absurd (all.0 ((same x).0 passes)),
      )
      | inr fails ↦ (
        λ h. (λ holds. absurd (false≢true (sym fails ∙ (same x).1 holds)), rest.0 (rw fails at h)),
        λ all. rw fails (rest.1 all.1),
      )
    ]

contains-some : {A : Type 0} ⦃e : Eq A⦄ (a : A) (xs : List A) → (contains a xs ≡ true) ↔ IsIn a xs
contains-some a [] = (λ h. cc, λ m. absurd m)
contains-some ⦃e⦄ a (x ∷ xs) = elim (Bool-cases (a == x)) [
  | inl same ↦ (λ h. inl ((e.beq_iff a x).0 same), λ m. rw same refl)
  | inr other ↦ (
    λ h. inr ((contains-some a xs).0 (rw other at h)),
    λ m. elim m [
      | inl here ↦ absurd (false≢true (sym other ∙ (e.beq_iff a x).1 here))
      | inr later ↦ rw other ((contains-some a xs).1 later)
    ],
  )
]

not_contained : (b : Bool) {P : Type 0} → (b ≡ true → P) → ¬ P → b ≡ false
not_contained true found none_there = absurd (none_there (found refl))
not_contained false found none_there = refl

-- The checks one after the other.
checks :
    (too_long empty known signature zero_byte : Bool)
    → ((if too_long
          then err file_oversized
          else if empty
          then err security_error
          else if not known
          then err invalid_file_type
          else if signature
          then err malicious_content
          else if zero_byte
          then err malicious_content
          else ok true)
        ≡ ok true)
      ↔ ((too_long ≡ false)
          × (empty ≡ false)
          × (known ≡ true)
          × (signature ≡ false)
          × (zero_byte ≡ false))
checks too_long empty known signature zero_byte = (λ h. ground arith, λ h. ground arith)

-- A file is let in exactly when it has between one byte and ten megabytes, one of the three extensions,
-- none of the signatures of an executable, an archive or a PDF in front, and no null byte.
pub validate_file_content-IsAcceptable :
    (lib : Platform) (filename : String) (content : List ℕ)
    → (validate_file_content lib filename content ≡ ok true) ↔ IsAcceptable lib filename content
unfolding validate_file_content
validate_file_content-IsAcceptable lib filename content =
    let magic =
      any_of-none (starts_with content) (λ m. IsPrefix m content) disallowed_magic_bytes
        (starts_with-IsPrefix content) in
    let ext = contains-some (lib.extension (lower filename)) allowed_extensions in
    let zeros = contains-some 0 content in
    let (in_order, back) =
      checks (ltb max_file_size_bytes (length content)) (eqb (length content) 0)
        (contains (lib.extension (lower filename)) allowed_extensions)
        (any_of (starts_with content) disallowed_magic_bytes) (contains 0 content) in
    (
      λ h.
          let (short, filled, known, plain, text) = in_order h in
          (
            ground (arith, filled),
            ground (arith, short),
            ext.0 known,
            magic.0 plain,
            λ m. absurd (false≢true (sym text ∙ zeros.1 m)),
          ),
      λ (filled, short, known, plain, text). back (
        ground (arith, short),
        ground (arith, filled),
        ext.1 known,
        magic.1 plain,
        not_contained (contains 0 content) zeros.0 text,
      ),
    )
