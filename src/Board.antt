-- ===== src/Board.antt =====
-- The board that src/hamsterdan/readiness/net_v5/board.py renders from the entries of the dashboard.
-- `parse` is the reading of an entry, the inverse of Python's `repr` of a fact.
pub mod Facts
pub mod Agreement
pub mod Render
mod Examples
use hamsterdan.Base.{
  ℕ, String, Bool, true, false, not, ◌&&◌, ◌||◌, Option, none, some, is_some, List, [], ◌∷◌, ◌++◌,
  ◌==◌, eqb, ltb, if◌then◌else◌, ◌⧺◌, decimal, Dict,
}
use hamsterdan.Colors.{
  Phase, running, quiescent, terminal, phase_eq, ChecksStatus, ReviewStatus, DashFact,
}
use hamsterdan.Ready.{is_empty}
use hamsterdan.Board.Facts.{
  BoardFacts, Attention, short, phase_of, head_of, base_of, is_base_current, is_mergeable,
  checks_of, review_of, category_of, blocking_of, count_of, approval_of, is_changes_requested,
  unresolved_of,
}

-- what `_verdict` says; `parked` is a draft pull request
pub data Verdict : Type 0 where
  closed : Verdict
  parked : Verdict
  faulted : String → String → Verdict
  exhausted : String → Verdict
  working : String → Verdict
  failing : String → Verdict
  blocked : ℕ → ℕ → String → Verdict
  unable : String → String → Verdict
  changes : String → Verdict
  unresolved : ℕ → String → Verdict
  stale : String → Verdict
  conflict : String → Verdict
  checking : String → Verdict
  reviewing : String → Verdict
  unapproved : String → Verdict
  all_clear : String → Verdict

abbrev pub is_phase : Phase → Option Phase → Bool
is_phase p none = false
is_phase p (some q) = phase_eq q p

abbrev pub is_failure : ChecksStatus → Bool
is_failure ChecksStatus.failure = true
is_failure _ = false

-- `checks in ("pending", "queued", "in_progress")`
abbrev pub is_waiting : ChecksStatus → Bool
is_waiting ChecksStatus.pending = true
is_waiting ChecksStatus.queued = true
is_waiting ChecksStatus.in_progress = true
is_waiting _ = false

abbrev pub is_unable : ReviewStatus → Bool
is_unable ReviewStatus.unable = true
is_unable _ = false

abbrev pub is_clear : ReviewStatus → Bool
is_clear ReviewStatus.clear = true
is_clear _ = false

-- the tests of `_verdict` on the gates, once nothing is closed, faulted, exhausted or in flight
unfoldable pub gates_verdict : BoardFacts → Verdict
gates_verdict facts =
    let head = short (head_of facts) in
    if is_failure (checks_of facts)
    then failing head
    else if ltb 0 (blocking_of facts)
    then blocked (blocking_of facts) (count_of facts) head
    else if is_unable (review_of facts)
    then unable head (category_of facts)
    else if is_changes_requested facts
    then changes head
    else if ltb 0 (unresolved_of facts)
    then unresolved (unresolved_of facts) head
    else if not (is_base_current facts)
    then stale (short (base_of facts))
    else if not (is_mergeable facts)
    then conflict head
    else if is_waiting (checks_of facts)
    then checking head
    else if not (is_clear (review_of facts))
    then reviewing head
    else if not (approval_of facts)
    then unapproved head
    else all_clear head

-- the fault that the verdict names, or what follows
abbrev pub fault_or : List Attention → Verdict → Verdict
fault_or [] next = next
fault_or (a ∷ _) next = faulted a.op a.reason

-- what follows the test for faults
unfoldable pub open_verdict : BoardFacts → Verdict
unfolding gates_verdict
open_verdict facts =
    let head = short (head_of facts) in
    if is_some facts.human_needed
    then exhausted head
    else if not (is_empty facts.mutations)
    then working head
    else gates_verdict facts

-- `_verdict`
unfoldable pub verdict : BoardFacts → Verdict
unfolding open_verdict
verdict facts =
    if is_phase terminal (phase_of facts)
    then closed
    else if is_phase quiescent (phase_of facts)
    then parked
    else fault_or facts.faults (open_verdict facts)
