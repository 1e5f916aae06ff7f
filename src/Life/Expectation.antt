-- ===== src/Life/Expectation.antt =====
-- The head that lifecycle expects after a push of its own.
use hamsterdan.Base.{
  ℕ, String, Bool, true, false, ◌&&◌, ◌||◌, List, [], ◌∷◌, ◌≡◌, ◌≢◌, ◌⊎◌, inl, refl, arith, All,
  All-append, ◌==◌, eq_iff,
}
use hamsterdan.Colors.{running, confirmed, HeadSeen, LifeState, Mail, ci_heads, review_heads}
use hamsterdan.Life.{LifeEvent, head_seen, provisional_head, seed, fold}
use hamsterdan.Life.Traces.{next, final, mailed}

-- A running baton does not wait for the head that it stands on.
abbrev pub IsAwake : LifeState → Type 0
IsAwake s = s.phase ≡ running → (s.expected ≡ "") ⊎ (s.expected ≢ s.head)

-- a push moves the head
abbrev pub Moves : LifeEvent → Type 0
Moves (provisional_head n) = n.expected ≢ n.from_head
Moves _ = Unit

next-IsAwake : (e : LifeEvent) (s : LifeState) → Moves e → IsAwake s → IsAwake (next e s)
unfolding next
next-IsAwake (head_seen x) s m h =
    ground (arith, eq_iff x.head s.head, eq_iff s.expected x.head, eq_iff s.expected "")
next-IsAwake (provisional_head n) s m h = ground (arith, eq_iff s.head n.from_head)
next-IsAwake _ s m h = ground arith

-- If each note of a push names another head than the one it moved from, then in no run does a
-- running baton wait for the head that it stands on, draft and resume included.
pub run-IsAwake :
    (s : LifeState) (es : List LifeEvent) → All Moves es → IsAwake s → IsAwake (final s es)
unfolding final
run-IsAwake s [] m h = h
run-IsAwake s (e ∷ es) m h = run-IsAwake (next e s) es m.1 (next-IsAwake e s m.0 h)

-- a note among the events expects `head` and carries `lineage`
abbrev pub noted : List LifeEvent → String → String → Bool
noted [] head lineage = false
noted (provisional_head n ∷ es) head lineage =
    (n.expected == head && n.lineage == lineage) || noted es head lineage
noted (_ ∷ es) head lineage = noted es head lineage

-- A confirmed head is one that a note expected, with the note's lineage.
abbrev pub IsExplained : (String → String → Bool) → Mail → Type 0
IsExplained known (ci_heads w) = w.relation ≡ confirmed → known w.head w.lineage ≡ true
IsExplained known (review_heads w) = w.relation ≡ confirmed → known w.head w.lineage ≡ true
IsExplained known _ = Unit

abbrev IsBacked : (String → String → Bool) → LifeState → Type 0
IsBacked known s = (s.expected ≡ "") ⊎ (known s.expected s.lineage ≡ true)

abbrev IsKnown : (String → String → Bool) → LifeEvent → Type 0
IsKnown known (provisional_head n) = known n.expected n.lineage ≡ true
IsKnown known _ = Unit

module _ (known : String → String → Bool) where
  seen-IsBacked :
      (x : HeadSeen) (s : LifeState) → IsBacked known s → IsBacked known (next (head_seen x) s)
  unfolding next
  seen-IsBacked x s b = ground arith

  seen-IsExplained :
      (x : HeadSeen) (s : LifeState)
      → IsBacked known s
      → All (IsExplained known) (fold (head_seen x) s)
  unfolding next
  seen-IsExplained x s b = ground (arith, eq_iff s.expected x.head, eq_iff s.expected "")

  step-IsExplained :
      (e : LifeEvent) (s : LifeState)
      → IsKnown known e
      → IsBacked known s
      → IsBacked known (next e s) × All (IsExplained known) (fold e s)
  unfolding next
  step-IsExplained (head_seen x) s k b = (seen-IsBacked x s b, seen-IsExplained x s b)
  step-IsExplained _ s k b = ground arith

  run-IsExplained :
      (s : LifeState) (es : List LifeEvent)
      → All (IsKnown known) es
      → IsBacked known s
      → All (IsExplained known) (mailed s es)
  unfolding mailed
  run-IsExplained s [] k b = tt
  run-IsExplained s (e ∷ es) k b =
      let (b', now) = step-IsExplained e s k.0 b in
      All-append (IsExplained known) (fold e s) (mailed (next e s) es) now
        (run-IsExplained (next e s) es k.1 b')

-- `es` knows its own notes, and those that more events know
noted_weaken :
    (known : String → String → Bool) (es : List LifeEvent)
    → ((h l : String) → noted es h l ≡ true → known h l ≡ true)
    → All (IsKnown known) es
noted_weaken known [] f = tt
noted_weaken known (provisional_head n ∷ es) f = (
  f n.expected n.lineage (ground (arith, eq_iff n.expected n.expected, eq_iff n.lineage n.lineage)),
  noted_weaken known es (λ h l p. f h l (ground arith)),
)
noted_weaken known (_ ∷ es) f = (tt, noted_weaken known es f)

-- In a run from a new workflow, a head is admitted as confirmed only if a note of the run expected
-- it, and its lineage is the note's.
pub confirmed_was_noted :
    (delay : ℕ) (es : List LifeEvent) → All (IsExplained (noted es)) (mailed (seed delay) es)
confirmed_was_noted delay es =
    run-IsExplained (noted es) (seed delay) es (noted_weaken (noted es) es (λ h l p. p)) (inl refl)
