-- ===== src/Common/Texts.antt =====
-- `str.strip`, `str.upper` and `str.lower`, for the white space and the letters of ASCII; any other
-- character is kept as it is.
use Prim.Native.Nat.{ℕ, ◌+◌, ◌-◌}
use text.Mathlib.Text.{find?}
use Prim.Native.Char.{Char, code}
use Prim.Native.String.{String, ◌∷◌, ◌++◌, char_at}
use mathlib.Core.Bool.{Bool, true, false, ◌&&◌, ◌||◌}
use mathlib.Core.Path.{◌≡◌, refl}
use mathlib.Core.Option.{none, some}
use mathlib.Core.List.{List}
use buy_or_wait_ai_advisor.Common.Lists.{prepend}
use buy_or_wait_ai_advisor.Common.Keys.{◌==◌, string_eq}
use buy_or_wait_ai_advisor.Common.Tests.{eqb, leb, if◌then◌else◌}

-- `s + t`
abbrev pub append : String → String → String
append s t = s ++ t

abbrev pub is_space : Char → Bool
is_space c =
    eqb (code c) 32 || leb 9 (code c) && leb (code c) 13 || leb 28 (code c) && leb (code c) 31

abbrev pub upper_char : Char → Char
upper_char c =
    if leb 97 (code c) && leb (code c) 122
    then char_at "ABCDEFGHIJKLMNOPQRSTUVWXYZ" (code c - 97)
    else c

abbrev pub lower_char : Char → Char
lower_char c =
    if leb 65 (code c) && leb (code c) 90
    then char_at "abcdefghijklmnopqrstuvwxyz" (code c - 65)
    else c

unfoldable pub upper : String → String
upper String.[] = String.[]
upper (c ∷ s) = upper_char c ∷ upper s

unfoldable pub lower : String → String
lower String.[] = String.[]
lower (c ∷ s) = lower_char c ∷ lower s

unfoldable pub strip_left : String → String
strip_left String.[] = String.[]
strip_left (c ∷ s) = let rest = strip_left s in if is_space c then rest else c ∷ s

abbrev pub cons_unless_blank : Char → String → String
cons_unless_blank c String.[] = if is_space c then String.[] else c ∷ String.[]
cons_unless_blank c (d ∷ s) = c ∷ d ∷ s

unfoldable pub strip_right : String → String
strip_right String.[] = String.[]
strip_right (c ∷ s) = cons_unless_blank c (strip_right s)

unfoldable pub strip : String → String
unfolding strip_left strip_right
strip s = strip_left (strip_right s)

-- `text in s`
unfoldable pub has_text : String → String → Bool
has_text s text = elim (find? s text) [ none ↦ false | some _ ↦ true ]

-- The characters that the test keeps.
unfoldable pub select_chars : (Char → Bool) → String → String
select_chars keep String.[] = String.[]
select_chars keep (c ∷ s) = let rest = select_chars keep s in if keep c then c ∷ rest else rest

unfoldable pub map_chars : (Char → Char) → String → String
map_chars f String.[] = String.[]
map_chars f (c ∷ s) = f c ∷ map_chars f s

-- `s.lstrip(c)` of one character, given by its code
unfoldable pub strip_left_of : ℕ → String → String
strip_left_of n String.[] = String.[]
strip_left_of n (c ∷ s) = let rest = strip_left_of n s in if eqb (code c) n then rest else c ∷ s

-- How many characters pass the test.
unfoldable pub count_of_text : (Char → Bool) → String → ℕ
count_of_text test String.[] = 0
count_of_text test (c ∷ s) = let rest = count_of_text test s in if test c then rest + 1 else rest

-- The code of the first and of the last character, 0 for an empty text.
abbrev pub first_code : String → ℕ
first_code String.[] = 0
first_code (c ∷ s) = code c

unfoldable pub last_code : String → ℕ
last_code String.[] = 0
last_code (c ∷ s) = let rest = last_code s in if s == "" then code c else rest

-- `s[1:]` and `s[:-1]`
abbrev pub tail_of : String → String
tail_of String.[] = String.[]
tail_of (c ∷ s) = s

unfoldable pub init_of : String → String
init_of String.[] = String.[]
init_of (c ∷ s) = let rest = init_of s in if s == "" then String.[] else c ∷ rest

-- `s.split()`, from a word that has begun.
unfoldable pub words_from : String → String → List String
words_from word String.[] = if word == "" then List.[] else prepend word List.[]
words_from word (c ∷ s) =
    let next = words_from "" s in
    let longer = words_from (word ++ (c ∷ String.[])) s in
    if is_space c then (if word == "" then next else prepend word next) else longer

upper-strip : upper (strip " uSd  ") ≡ "USD"
unfolding upper strip
upper-strip = refl
