-- ===== src/Backend/Ingestion/Security.antt =====
-- backend/ingestion/security.py: the checks of an uploaded file; its bytes are numbers.
pub mod Files
use Prim.Native.Char.{Char, code}
use Prim.Native.String.{char_at}
use buy_or_wait_ai_advisor.Common.{
  Bool, List, Result, String, [], any_of, contains, eqb, err, false, file_oversized, if◌then◌else◌,
  invalid_file_type, length, lower, ltb, malicious_content, map_chars, nat_eq, not, ok, pair_eq,
  security_error, select_chars, string_eq, strip_left_of, true, ℕ, ◌&&◌, ◌*◌, ◌==◌, ◌∷◌,
}
use buy_or_wait_ai_advisor.Backend.Ingestion.Models.{Platform}

abbrev pub max_file_size_bytes : ℕ
max_file_size_bytes = 10 * 1024 * 1024

abbrev pub allowed_extensions : List String
allowed_extensions = ".csv" ∷ ".txt" ∷ ".tsv" ∷ []

-- The first bytes of the formats that are turned away.
abbrev pub disallowed_magic_bytes : List (List ℕ)
disallowed_magic_bytes =
    (77 ∷ 90 ∷ [])
    ∷ (127 ∷ 69 ∷ 76 ∷ 70 ∷ [])
    ∷ (202 ∷ 254 ∷ 186 ∷ 190 ∷ [])
    ∷ (254 ∷ 237 ∷ 250 ∷ 206 ∷ [])
    ∷ (254 ∷ 237 ∷ 250 ∷ 207 ∷ [])
    ∷ (80 ∷ 75 ∷ 3 ∷ 4 ∷ [])
    ∷ (82 ∷ 97 ∷ 114 ∷ 33 ∷ 26 ∷ 7 ∷ [])
    ∷ (31 ∷ 139 ∷ 8 ∷ [])
    ∷ (55 ∷ 122 ∷ 188 ∷ 175 ∷ 39 ∷ 28 ∷ [])
    ∷ (37 ∷ 80 ∷ 68 ∷ 70 ∷ 45 ∷ [])
    ∷ []

-- `content.startswith(magic)`
unfoldable pub starts_with : List ℕ → List ℕ → Bool
starts_with content [] = true
starts_with [] (m ∷ magic) = false
starts_with (c ∷ content) (m ∷ magic) = eqb c m && starts_with content magic

unfoldable pub validate_file_content : Platform → String → List ℕ → Result Bool
unfolding lower starts_with
validate_file_content lib filename content =
    if ltb max_file_size_bytes (length content)
    then err file_oversized
    else if eqb (length content) 0
    then err security_error
    else if not (contains (lib.extension (lower filename)) allowed_extensions)
    then err invalid_file_type
    else if any_of (starts_with content) disallowed_magic_bytes
    then err malicious_content
    else if contains 0 content
    then err malicious_content
    else ok true

abbrev pub or_name : String → String → String
or_name other clean = if clean == "" then other else clean

-- `clean.replace("\\", "/")`
abbrev pub slash_for : Char → Char
slash_for c = if eqb (code c) 92 then char_at "/" 0 else c

-- The name under which a file is kept; `fresh_name` is the one that is made of random digits.
unfoldable pub sanitize_filename : Platform → String → String → String
unfolding select_chars strip_left_of map_chars
sanitize_filename lib fresh_name filename =
    let clean = select_chars (λ c. not (eqb (code c) 0)) filename in
    let base = lib.basename (map_chars slash_for clean) in
    let safe = lib.sub "[^a-zA-Z0-9._-]" "_" base in
    if filename == "" then fresh_name else or_name fresh_name (strip_left_of 46 safe)
