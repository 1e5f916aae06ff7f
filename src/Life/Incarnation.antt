-- ===== src/Life/Incarnation.antt =====
-- The incarnation of the lifecycle baton, and the authority that its mail carries.
use hamsterdan.Base.{ℕ, ◌+◌, not, List, [], ◌∷◌, ◌++◌, ◌≡◌, refl, arith, All, ◌==◌, if◌then◌else◌}
use hamsterdan.Colors.{
  running, LifeState, HeadWork, is_refreshed, Mail, review_heads, ci_heads, ready_state_facts,
  dash_facts, state, rem_cycles, rem_pauses, conv_intents, ready_human_facts, ci_runs,
}
use hamsterdan.Life.{LifeEvent, state_fact, fold}
use hamsterdan.Life.Traces.{next, final, mailed}

-- the incarnations under which CI is handed a head that it has not been handed before
abbrev pub admissions : List Mail → List ℕ
admissions [] = []
admissions (ci_heads w ∷ ms) =
    let rest = admissions ms in if is_refreshed w.relation then rest else w.incarnation ∷ rest
admissions (_ ∷ ms) = admissions ms

-- `n + 1`, `n + 2`, … up to `m`: each once, in order
abbrev pub CountsUp : ℕ → List ℕ → ℕ → Type 0
CountsUp n [] m = n ≡ m
CountsUp n (x ∷ xs) m = (x ≡ n + 1) × CountsUp x xs m

CountsUp-append :
    (n m k : ℕ) (xs ys : List ℕ) → CountsUp n xs m → CountsUp m ys k → CountsUp n (xs ++ ys) k
CountsUp-append n m k [] ys h g = rw h g
CountsUp-append n m k (x ∷ xs) ys h g = (h.0, CountsUp-append x m k xs ys h.1 g)

admissions-append : (ms ns : List Mail) → admissions (ms ++ ns) ≡ admissions ms ++ admissions ns
admissions-append [] ns = refl
admissions-append (ci_heads w ∷ ms) ns = ground (arith, admissions-append ms ns)
admissions-append (_ ∷ ms) ns = admissions-append ms ns

fold-CountsUp :
    (e : LifeEvent) (s : LifeState)
    → CountsUp s.incarnation (admissions (fold e s)) (next e s).incarnation
unfolding next
fold-CountsUp e s = ground arith

-- Over any run the heads are admitted under consecutive incarnations, from the one after the start
-- to the last one held: none is skipped and none is used twice.
pub run-CountsUp :
    (s : LifeState) (es : List LifeEvent)
    → CountsUp s.incarnation (admissions (mailed s es)) (final s es).incarnation
unfolding mailed final
run-CountsUp s [] = refl
run-CountsUp s (e ∷ es) = rw admissions-append (
    CountsUp-append _ _ _ (admissions (fold e s)) (admissions (mailed (next e s) es))
      (fold-CountsUp e s) (run-CountsUp (next e s) es))

abbrev pub Carries : LifeState → HeadWork → Type 0
Carries s w =
    (w.incarnation ≡ s.incarnation)
    × (w.head ≡ s.head)
    × (w.base ≡ s.base)
    × (w.policy ≡ s.policy)
    × (w.lineage ≡ s.lineage)
    × (s.phase ≡ running)

-- A token speaks for the baton `s`: it carries its authority, and work is for a running baton.
abbrev pub Speaks : LifeState → Mail → Type 0
Speaks s (review_heads w) = Carries s w
Speaks s (ci_heads w) = Carries s w
Speaks s (ready_state_facts f) = f ≡ state_fact s
Speaks s (dash_facts (state f)) = f ≡ state_fact s
Speaks s (rem_cycles c) = (c.incarnation ≡ s.incarnation) × (c.head ≡ s.head)
Speaks s (rem_pauses c) = (c.incarnation ≡ s.incarnation) × (c.head ≡ s.head)
Speaks s (ready_human_facts f) = f.incarnation ≡ s.incarnation
Speaks s (ci_runs w) = (w.incarnation ≡ s.incarnation) × (s.phase ≡ running)
Speaks s (conv_intents i) =
    (i.phase ≡ s.phase)
    × (i.incarnation ≡ s.incarnation)
    × (i.head ≡ s.head)
    × (i.base ≡ s.base)
    × (i.policy ≡ s.policy)
    × (i.provisional ≡ not (s.expected == ""))
Speaks s _ = Unit

-- Whatever the transition, what it mails carries the authority of the baton that it gives back:
-- works, state facts, reminders, human facts, runs and intents. Works and runs are mailed only
-- while that baton is running.
pub fold-Speaks : (e : LifeEvent) (s : LifeState) → All (Speaks (next e s)) (fold e s)
unfolding next
fold-Speaks e s = ground arith
