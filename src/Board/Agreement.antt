-- ===== src/Board/Agreement.antt =====
-- The verdict of the board against the decision of the readiness loop.
use hamsterdan.Base.{
  Bool, true, false, not, ◌&&◌, Option, none, some, is_some, List, [], ◌∷◌, ◌≡◌, refl, ap, arith,
  eqb,
}
use hamsterdan.Colors.{
  Phase, running, quiescent, terminal, ChecksStatus, ReviewStatus, StateFact, Snapshot,
}
use hamsterdan.Ready.{ready, is_running, is_success, is_empty}
use hamsterdan.Ready as Ready
use hamsterdan.Board.Facts.{
  BoardFacts, Attention, state_of, phase_from, is_current_from, phase_of, is_base_current,
  is_mergeable, checks_of, review_of, blocking_of, approval_of, is_changes_requested, unresolved_of,
}
use hamsterdan.Board.{
  Verdict, all_clear, is_phase, is_failure, is_waiting, is_unable, is_clear, gates_verdict,
  open_verdict, fault_or, verdict,
}

abbrev pub is_all_clear : Verdict → Bool
is_all_clear (all_clear head) = true
is_all_clear _ = false

-- the snapshot with what the board shows of the gates
abbrev pub shown : BoardFacts → Snapshot → Snapshot
shown facts s = record s {
  phase = phase_of facts;
  checks = checks_of facts;
  review = review_of facts;
  findings_blocking = blocking_of facts;
  approval = approval_of facts;
  changes_requested = is_changes_requested facts;
  unresolved = unresolved_of facts;
  mergeable = is_mergeable facts;
  base_current = is_base_current facts;
}

success-cases : (c : ChecksStatus) → is_success c ≡ (not (is_failure c) && not (is_waiting c))
success-cases ChecksStatus.pending = refl
success-cases ChecksStatus.queued = refl
success-cases ChecksStatus.in_progress = refl
success-cases ChecksStatus.success = refl
success-cases ChecksStatus.failure = refl

clear-cases : (r : ReviewStatus) → Ready.is_clear r ≡ (not (is_unable r) && is_clear r)
clear-cases ReviewStatus.pending = refl
clear-cases ReviewStatus.clear = refl
clear-cases ReviewStatus.blocking = refl
clear-cases ReviewStatus.unable = refl

-- the gates, apart from phase, pushes and faults
abbrev gates_clear : BoardFacts → Bool
gates_clear facts =
    is_success (checks_of facts)
    && Ready.is_clear (review_of facts)
    && eqb (blocking_of facts) 0
    && approval_of facts
    && not (is_changes_requested facts)
    && eqb (unresolved_of facts) 0
    && is_mergeable facts
    && is_base_current facts

gates_verdict-clear : (facts : BoardFacts) → is_all_clear (gates_verdict facts) ≡ gates_clear facts
unfolding gates_verdict
gates_verdict-clear facts =
    ground (arith, success-cases (checks_of facts), clear-cases (review_of facts))

running-cases :
    (p : Phase)
    → is_running (some p) ≡ (not (is_phase terminal (some p)) && not (is_phase quiescent (some p)))
running-cases running = refl
running-cases quiescent = refl
running-cases terminal = refl

-- a phase is known if the base is current
phase-cases :
    (o : Option StateFact)
    → (is_current_from o && is_running (phase_from o)) ≡ (
        is_current_from o
        && not (is_phase terminal (phase_from o))
        && not (is_phase quiescent (phase_from o)))
phase-cases none = refl
phase-cases (some f) = ground (arith, running-cases f.body.phase)

open_verdict-clear :
    (facts : BoardFacts)
    → is_some facts.human_needed ≡ false
    → is_all_clear (open_verdict facts) ≡ (is_empty facts.mutations && gates_clear facts)
unfolding open_verdict
open_verdict-clear facts h = ground (arith, gates_verdict-clear facts)

fault_or-clear :
    (faults : List Attention) (v : Verdict)
    → is_all_clear (fault_or faults v) ≡ (is_empty faults && is_all_clear v)
fault_or-clear [] v = refl
fault_or-clear (a ∷ as') v = refl

-- The board says that all gates are clear exactly when the readiness loop, for a snapshot that holds what
-- the board shows, decides ready and the base is current, given that no escalation stands and that the
-- snapshot has a fault exactly if the board has one, and a pending push exactly if the board has one.
-- Where the policy does not ask for a current base, readiness does not ask for it, but the board does.
pub board_agrees :
    (facts : BoardFacts) (s : Snapshot)
    → facts.human_needed ≡ none
    → is_empty s.faults ≡ is_empty facts.faults
    → is_empty s.pending ≡ is_empty facts.mutations
    → is_all_clear (verdict facts) ≡ (ready (shown facts s) && is_base_current facts)
unfolding verdict ready
board_agrees facts s h f m = ground (
  arith,
  fault_or-clear facts.faults (open_verdict facts),
  open_verdict-clear facts (ap is_some h),
  phase-cases (state_of facts),
)
