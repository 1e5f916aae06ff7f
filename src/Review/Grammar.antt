-- ===== src/Review/Grammar.antt =====
-- The identity of a publication fits the grammar of markers.
use Prim.Native.Char.{code}
use Prim.Native.Nat.{◌/◌, ◌%◌}
use text.Mathlib.TextLemmas.{nil-append, cons-append}
use hamsterdan.Base.{
  ℕ, zero, suc, ◌+◌, String, Bool, true, false, ◌&&◌, ◌≡◌, refl, arith, ltb, leb, eqb,
  if◌then◌else◌, ◌⧺◌, decimal, Bool-cases, inl, inr,
}
use hamsterdan.Base.Text.{digit, decimal_on}
use hamsterdan.Review.Identity.{
  is_marker_char, marker_rest, is_marker_operation, findings_text, findings_operation,
}

-- every character is one of a marker
unfoldable pub all_marker : String → Bool
all_marker String.[] = true
all_marker (String.◌∷◌ c s) = is_marker_char (code c) && all_marker s

unfoldable pub text_length : String → ℕ
text_length String.[] = 0
text_length (String.◌∷◌ c s) = suc (text_length s)

all_marker-append :
    (s t : String) → all_marker s ≡ true → all_marker t ≡ true → all_marker (s ⧺ t) ≡ true
unfolding all_marker
all_marker-append String.[] t p q = rw (nil-append t) q
all_marker-append (String.◌∷◌ c s) t p q =
    rw (cons-append c s t) (ground (arith, all_marker-append s t))

text_length-append : (s t : String) → text_length (s ⧺ t) ≡ text_length s + text_length t
unfolding text_length
text_length-append String.[] t = rw (nil-append t) (omega arith)
text_length-append (String.◌∷◌ c s) t =
    rw (cons-append c s t) (omega (arith, text_length-append s t))

marker_rest-fits :
    (n : ℕ) (s : String)
    → all_marker s ≡ true
    → leb (text_length s) n ≡ true
    → marker_rest n s ≡ true
unfolding marker_rest all_marker text_length
marker_rest-fits n String.[] p q = refl
marker_rest-fits zero (String.◌∷◌ c s) p q = ground arith
marker_rest-fits (suc n) (String.◌∷◌ c s) p q = ground (arith, marker_rest-fits n s)

choose-marker :
    (b : Bool) (s t : String)
    → all_marker s ≡ true
    → all_marker t ≡ true
    → all_marker (if b then s else t) ≡ true
choose-marker true s t p q = p
choose-marker false s t p q = q

digit-marker : (d : ℕ) → all_marker (digit d) ≡ true
unfolding digit all_marker
digit-marker d = choose-marker (eqb d 0) _ _ refl (
    choose-marker (eqb d 1) _ _ refl (
      choose-marker (eqb d 2) _ _ refl (
        choose-marker (eqb d 3) _ _ refl (
          choose-marker (eqb d 4) _ _ refl (
            choose-marker (eqb d 5) _ _ refl (
              choose-marker (eqb d 6) _ _ refl
                (choose-marker (eqb d 7) _ _ refl (choose-marker (eqb d 8) _ _ refl refl))))))))

decimal_on-marker : (fuel n : ℕ) → all_marker (decimal_on fuel n) ≡ true
unfolding decimal_on all_marker
decimal_on-marker zero n = refl
decimal_on-marker (suc fuel) n = elim (Bool-cases (ltb n 10)) [
  | inl p ↦ rw p (digit-marker n)
  | inr p ↦ rw p (
      all_marker-append (decimal_on fuel (n / 10)) (digit (n % 10))
        (decimal_on-marker fuel (n / 10)) (digit-marker (n % 10)))
]

decimal-marker : (n : ℕ) → all_marker (decimal n) ≡ true
unfolding decimal
decimal-marker n = decimal_on-marker (suc n) n

-- the long form of the identity, after its first character
abbrev long_rest : String → ℕ → String
long_rest d incarnation = "indings:sha256:" ⧺ d ⧺ ":i" ⧺ decimal incarnation

long_rest-marker :
    (d : String) (incarnation : ℕ)
    → all_marker d ≡ true
    → all_marker (long_rest d incarnation) ≡ true
unfolding all_marker
long_rest-marker d incarnation p =
    all_marker-append "indings:sha256:" (d ⧺ ":i" ⧺ decimal incarnation) refl (
      all_marker-append d (":i" ⧺ decimal incarnation) p
        (all_marker-append ":i" (decimal incarnation) refl (decimal-marker incarnation)))

long_rest-length :
    (d : String) (incarnation : ℕ)
    → text_length d ≡ 64
    → text_length (long_rest d incarnation) ≡ 81 + text_length (decimal incarnation)
unfolding text_length
long_rest-length d incarnation p = omega (
  arith,
  text_length-append "indings:sha256:" (d ⧺ ":i" ⧺ decimal incarnation),
  text_length-append d (":i" ⧺ decimal incarnation),
  text_length-append ":i" (decimal incarnation),
)

long-IsMarker :
    (d : String) (incarnation : ℕ)
    → all_marker d ≡ true
    → text_length d ≡ 64
    → leb (text_length (decimal incarnation)) 46 ≡ true
    → is_marker_operation ("findings:sha256:" ⧺ d ⧺ ":i" ⧺ decimal incarnation) ≡ true
unfolding is_marker_operation
long-IsMarker d incarnation p q b =
    rw (cons-append "f" "indings:sha256:" (d ⧺ ":i" ⧺ decimal incarnation)) (
      marker_rest-fits 127 (long_rest d incarnation) (long_rest-marker d incarnation p)
        (ground (arith, long_rest-length d incarnation q)))

-- Whatever the head is, the identity of a publication fits the grammar of markers, if the digest is of 64 characters of that grammar and the
-- incarnation has at most 46 digits.
pub findings_operation-IsMarker :
    (digest : String → ℕ → String) (head : String) (incarnation : ℕ)
    → all_marker (digest head incarnation) ≡ true
    → text_length (digest head incarnation) ≡ 64
    → leb (text_length (decimal incarnation)) 46 ≡ true
    → is_marker_operation (findings_operation digest head incarnation) ≡ true
unfolding findings_operation
findings_operation-IsMarker digest head incarnation p q b =
    elim (Bool-cases (is_marker_operation (findings_text head incarnation))) [
      | inl c ↦ rw c c
      | inr c ↦ rw c (long-IsMarker (digest head incarnation) incarnation p q b)
    ]
