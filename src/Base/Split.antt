-- ===== src/Base/Split.antt =====
-- `removeprefix` and `split(":", 1)[0]` on texts.
use Prim.Native.Nat.{ℕ, zero, suc, ◌/◌, ◌%◌}
use Prim.Native.Char.{code}
use Prim.Native.String.{String}
use mathlib.Core.Path.{◌≡◌, refl, ◌∙◌, ap}
use mathlib.Core.Bool.{Bool, true, false}
use mathlib.Core.Logic.{inl, inr}
use mathlib.Core.Option.{Option, none, some}
use native.Mathlib.Omega.{arith}
use text.Mathlib.TextLemmas.{nil-append, cons-append}
use hamsterdan.Base.Tests.{eqb, if◌then◌else◌, Bool-cases, ltb}
use hamsterdan.Base.Text.{◌⧺◌, decimal, decimal_on, digit}

-- the rest of a text behind a prefix, if it starts with it
unfoldable pub strip : String → String → Option String
strip String.[] s = some s
strip (String.◌∷◌ c p) String.[] = none
strip (String.◌∷◌ c p) (String.◌∷◌ d s) = if eqb (code c) (code d) then strip p s else none

-- `text.split(":", 1)[0]`
unfoldable pub before_colon : String → String
before_colon String.[] = String.[]
before_colon (String.◌∷◌ c s) =
    let rest = before_colon s in if eqb (code c) 58 then String.[] else String.◌∷◌ c rest

abbrev pub has_colon : String → Bool
has_colon String.[] = false
has_colon (String.◌∷◌ c s) = if eqb (code c) 58 then true else has_colon s

pub strip-append : (p s : String) → strip p (p ⧺ s) ≡ some s
unfolding strip
strip-append String.[] s = rw (nil-append s) refl
strip-append (String.◌∷◌ c p) s = rw (cons-append c p s) (ground (arith, strip-append p s))

pub before_colon-append : (l s : String) → has_colon l ≡ false → before_colon (l ⧺ (":" ⧺ s)) ≡ l
unfolding before_colon
before_colon-append String.[] s h =
    rw (nil-append (":" ⧺ s)) (ap before_colon (cons-append ":" "" s) ∙ refl)
before_colon-append (String.◌∷◌ c l) s h =
    rw (cons-append c l (":" ⧺ s)) (ground (arith, before_colon-append l s))

pub has_colon-append :
    (s t : String) → has_colon s ≡ false → has_colon t ≡ false → has_colon (s ⧺ t) ≡ false
has_colon-append String.[] t h g = rw (nil-append t) g
has_colon-append (String.◌∷◌ c s) t h g =
    rw (cons-append c s t) (ground (arith, has_colon-append s t))

either-has_colon :
    (b : Bool) (s t : String)
    → has_colon s ≡ false
    → has_colon t ≡ false
    → has_colon (if b then s else t) ≡ false
either-has_colon true s t h g = h
either-has_colon false s t h g = g

digit-has_colon : (d : ℕ) → has_colon (digit d) ≡ false
unfolding digit
digit-has_colon d = either-has_colon (eqb d 0) "0" _ refl (
    either-has_colon (eqb d 1) "1" _ refl (
      either-has_colon (eqb d 2) "2" _ refl (
        either-has_colon (eqb d 3) "3" _ refl (
          either-has_colon (eqb d 4) "4" _ refl (
            either-has_colon (eqb d 5) "5" _ refl (
              either-has_colon (eqb d 6) "6" _ refl (
                either-has_colon (eqb d 7) "7" _ refl
                  (either-has_colon (eqb d 8) "8" "9" refl refl))))))))

decimal_on-has_colon : (fuel n : ℕ) → has_colon (decimal_on fuel n) ≡ false
unfolding decimal_on
decimal_on-has_colon zero n = refl
decimal_on-has_colon (suc fuel) n = elim (Bool-cases (ltb n 10)) [
  | inl p ↦ rw p (digit-has_colon n)
  | inr p ↦ rw p (
      has_colon-append (decimal_on fuel (n / 10)) (digit (n % 10))
        (decimal_on-has_colon fuel (n / 10)) (digit-has_colon (n % 10)))
]

pub decimal-has_colon : (n : ℕ) → has_colon (decimal n) ≡ false
unfolding decimal
decimal-has_colon n = decimal_on-has_colon (suc n) n
