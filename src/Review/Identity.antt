-- ===== src/Review/Identity.antt =====
-- The identities of review operations.
use Prim.Native.Char.{code}
use hamsterdan.Base.{
  ℕ, zero, suc, ◌+◌, String, Bool, true, false, ◌&&◌, ◌||◌, Option, none, some, ltb, leb, eqb,
  if◌then◌else◌, ◌⧺◌, decimal,
}

-- `len(text.encode())`: the bytes of a code point in UTF-8
abbrev char_bytes : ℕ → ℕ
char_bytes c = if ltb c 128 then 1 else if ltb c 2048 then 2 else if ltb c 65536 then 3 else 4

unfoldable pub byte_length : String → ℕ
byte_length String.[] = 0
byte_length (String.◌∷◌ c s) = char_bytes (code c) + byte_length s

abbrev pub operation_text : String → String → ℕ → String
operation_text subject head incarnation =
    "review:" ⧺ subject ⧺ ":" ⧺ head ⧺ ":i" ⧺ decimal incarnation

-- `_operation`: `none` is the ValueError of an identity over 1024 bytes
unfoldable pub operation : String → String → ℕ → Option String
unfolding byte_length decimal
operation subject head incarnation =
    if ltb 1024 (byte_length (operation_text subject head incarnation))
    then none
    else some (operation_text subject head incarnation)

abbrev between : ℕ → ℕ → ℕ → Bool
between lo hi c = leb lo c && leb c hi

-- `[A-Za-z0-9]`
abbrev pub is_alphanumeric : ℕ → Bool
is_alphanumeric c = between 65 90 c || between 97 122 c || between 48 57 c

-- `[A-Za-z0-9._:-]`
abbrev pub is_marker_char : ℕ → Bool
is_marker_char c = is_alphanumeric c || eqb c 46 || eqb c 95 || eqb c 58 || eqb c 45

-- `[A-Za-z0-9._:-]{0,n}` to the end of the text
unfoldable pub marker_rest : ℕ → String → Bool
marker_rest n String.[] = true
marker_rest zero (String.◌∷◌ c s) = false
marker_rest (suc n) (String.◌∷◌ c s) = let rest = marker_rest n s in is_marker_char (code c) && rest

-- `_MARKER_OPERATION.fullmatch`
unfoldable pub is_marker_operation : String → Bool
unfolding marker_rest
is_marker_operation String.[] = false
is_marker_operation (String.◌∷◌ c s) = is_alphanumeric (code c) && marker_rest 127 s

abbrev pub findings_text : String → ℕ → String
findings_text head incarnation = "findings:" ⧺ head ⧺ ":i" ⧺ decimal incarnation

-- the effect identity of `_publishable`
unfoldable pub findings_operation : (String → ℕ → String) → String → ℕ → String
unfolding is_marker_operation decimal
findings_operation digest head incarnation =
    if is_marker_operation (findings_text head incarnation)
    then findings_text head incarnation
    else "findings:sha256:" ⧺ digest head incarnation ⧺ ":i" ⧺ decimal incarnation
