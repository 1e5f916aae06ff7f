-- ===== src/Review/Runs.antt =====
-- What each transition keeps, a run keeps.
use hamsterdan.Base.{ℕ, String, Option, none, some, List, [], ◌∷◌, ◌++◌, ◌≡◌, All}
use mathlib.Core.Path.{subst}
use hamsterdan.Colors.{Mail}
use hamsterdan.Review.Protocol.{ReviewPlace, ReviewEvent, Fired, fire, run}

-- `P` of the place that a transition or a run gives, if it does not raise
abbrev pub IfFired : (ReviewPlace → Type 0) → Option Fired → Type 0
IfFired P none = Unit
IfFired P (some f) = P f.0

-- the rest of a run after a transition that gives `f`
abbrev pub run_after : (String → ℕ → String) → List ReviewEvent → Option Fired → Option Fired
unfolding run
run_after digest es f = elim f [
  | none ↦ none
  | some (q, ms) ↦ elim (run digest q es) [ none ↦ none | some r ↦ some (r.0, ms ++ r.1) ]
]

module _ (P : ReviewPlace → Type 0) (E : ReviewEvent → Type 0) (digest : String → ℕ → String) where
  join-IfFired :
      (ms : List Mail) (r : Option Fired)
      → IfFired P r
      → IfFired P (elim r [ none ↦ none | some r ↦ some (r.0, ms ++ r.1) ])
  join-IfFired ms none h = tt
  join-IfFired ms (some r) h = h

  run_after-IfFired :
      (es : List ReviewEvent) (f : Option Fired)
      → ((q : ReviewPlace) → P q → IfFired P (run digest q es))
      → IfFired P f
      → IfFired P (run_after digest es f)
  unfolding run
  run_after-IfFired es none g h = tt
  run_after-IfFired es (some (q, ms)) g h = join-IfFired ms (run digest q es) (g q h)

  run-IfFired :
      ((p : ReviewPlace) (e : ReviewEvent) → P p → E e → IfFired P (fire digest p e))
      → (es : List ReviewEvent) (p : ReviewPlace) → P p
      → All E es
      → IfFired P (run digest p es)
  unfolding run
  run-IfFired step [] p h s = h
  run-IfFired step (e ∷ es) p h s =
      run_after-IfFired es (fire digest p e) (λ q g. run-IfFired step es q g s.1) (step p e h s.0)

  pub run-keeps :
      ((p : ReviewPlace) (e : ReviewEvent) → P p → E e → IfFired P (fire digest p e))
      → (p q : ReviewPlace) (es : List ReviewEvent) (ms : List Mail) → P p
      → All E es
      → run digest p es ≡ some (q, ms)
      → P q
  run-keeps step p q es ms h s r = subst (IfFired P) r (run-IfFired step es p h s)
