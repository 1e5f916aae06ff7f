-- ===== src/Life/Examples.antt =====
-- A pull request that opens, is repaired, and closes.
use hamsterdan.Base.{String, true, List, [], ◌∷◌, ◌≡◌, refl, arith, eq_iff, ◌≢◌, All}
use hamsterdan.Colors.{terminal, HeadSeen, ProvisionalHead, LifeState}
use hamsterdan.Life.{LifeEvent, head_seen, draft_seen, ready_seen, provisional_head, seed, fold}
use hamsterdan.Life.Traces.{next, final, mailed}
use hamsterdan.Life.Incarnation.{CountsUp, admissions, run-CountsUp}
use hamsterdan.Life.Expectation.{IsExplained, noted, confirmed_was_noted}

abbrev sees : String → HeadSeen
sees head = record {
  head = head;
  base = "b1";
  mergeable = true;
  policy = "p1";
  strict_base = true;
  base_current = true;
}

abbrev note : ProvisionalHead
note = record { expected = "c2"; from_head = "c1"; op = "repair:L1:lint"; lineage = "L1" }

-- a head, a push of one's own on it, the push seen, and a foreign head
abbrev repaired : List LifeEvent
repaired =
    head_seen (sees "c1")
    ∷ provisional_head note
    ∷ head_seen (sees "c2")
    ∷ head_seen (sees "c3")
    ∷ []

run-CountsUp_example :
    CountsUp 0 (admissions (mailed (seed 3600) repaired)) (final (seed 3600) repaired).incarnation
run-CountsUp_example = run-CountsUp (seed 3600) repaired

test_admissions : admissions (mailed (seed 3600) repaired) ≡ 1 ∷ 2 ∷ 3 ∷ []
unfolding mailed fold next
test_admissions = refl

confirmed_was_noted_example : All (IsExplained (noted repaired)) (mailed (seed 3600) repaired)
confirmed_was_noted_example = confirmed_was_noted 3600 repaired

differ : note.expected ≢ note.from_head
differ p = ground (arith, eq_iff note.expected note.from_head)

-- the baton of a pull request that was closed
abbrev closed_state : LifeState
closed_state = record (seed 3600) { phase = terminal; incarnation = 4; head = "c4" }

-- a running baton at `c1`
abbrev opened : LifeState
opened = record (seed 3600) { incarnation = 1; head = "c1"; base = "b1"; policy = "p1" }

abbrev pauses : List LifeEvent
pauses = draft_seen ∷ head_seen (sees "c2") ∷ ready_seen ∷ []
