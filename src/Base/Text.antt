-- ===== src/Base/Text.antt =====
-- Texts that identities are built from: `str(n)` of a natural number, and the text operations that
-- take an identity apart.
use Prim.Native.Nat.{ℕ, zero, suc, ◌/◌, ◌%◌}
use Prim.Native.String.{String, ◌++◌}
use mathlib.Core.Path.{◌≡◌}
use mathlib.Core.Logic.{◌≢◌}
use mathlib.Core.Bool.{true, false}
use native.Mathlib.Omega.{arith}
use text.Mathlib.Text.{◌==◌}
use text.Mathlib.TextEquality.{eq_iff}
use hamsterdan.Base.Tests.{eqb, ltb, if◌then◌else◌}

infixr 65 ◌⧺◌
-- The concatenation of texts.
abbrev pub ◌⧺◌ : String → String → String
s ⧺ t = s ++ t

unfoldable pub digit : ℕ → String
digit d =
    if eqb d 0
    then "0"
    else if eqb d 1
    then "1"
    else if eqb d 2
    then "2"
    else if eqb d 3
    then "3"
    else if eqb d 4
    then "4"
    else if eqb d 5
    then "5"
    else if eqb d 6
    then "6"
    else if eqb d 7
    then "7"
    else if eqb d 8
    then "8"
    else "9"

unfoldable pub decimal_on : ℕ → ℕ → String
decimal_on zero n = ""
decimal_on (suc fuel) n =
    let rest = decimal_on fuel (n / 10) in if ltb n 10 then digit n else rest ⧺ digit (n % 10)

-- `str(n)`: the fuel `n + 1` is more than the number of digits.
unfoldable pub decimal : ℕ → String
unfolding digit decimal_on
decimal n = decimal_on (suc n) n

-- what the Boolean test of two texts says
pub text_equal : {s t : String} → (s == t) ≡ true → s ≡ t
text_equal {s} {t} p = ground (arith, eq_iff s t)

differing : (s t : String) → (s == t) ≡ false → s ≡ t → ⊥
differing s t p q = ground (arith, eq_iff s t)

pub text_differs : {s t : String} → (s == t) ≡ false → s ≢ t
text_differs {s} {t} p q = absurd (differing s t p q)
