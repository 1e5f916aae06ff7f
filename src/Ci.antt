-- ===== src/Ci.antt =====
-- src/hamsterdan/readiness/net_v5/ci.py: the loop that observes check runs. `none` from a fold is an
-- exception of the source (a missing key of `_RANK`).
pub mod Wiring
mod Examples
pub mod Traces
pub mod Evidence
pub mod Authority
pub mod Convergence
use mathlib.Core.Option
use hamsterdan.Base.{
  ℕ, String, Bool, true, false, not, ◌||◌, ◌&&◌, Option, none, some, List, [], ◌∷◌, ◌++◌, ◌==◌, leb,
  eqb, pair_lt, pair_eq, if◌then◌else◌, decimal, ◌⧺◌,
}
use hamsterdan.Colors.{
  ChecksStatus, RunConclusion, is_refreshed, is_new_code, CiState, ChecksFailure, HeadWork, RunWork,
  EscMoved, CloseFact, ChecksFact, checks, CiEnded, Mail, ci_state, ci_done, esc_failures,
  ready_checks_facts, dash_facts, mem_text,
}

-- `seed`
abbrev pub seed : CiState
seed = record {
  head = "";
  base = "";
  policy = "";
  lineage = "";
  incarnation = 0;
  best = none;
  status = ChecksStatus.pending;
  fingerprint = "";
  parked = [];
}

-- a run's conclusion as the status that it is stored as
abbrev pub status_of : RunConclusion → ChecksStatus
status_of RunConclusion.queued = ChecksStatus.queued
status_of RunConclusion.in_progress = ChecksStatus.in_progress
status_of RunConclusion.success = ChecksStatus.success
status_of RunConclusion.failure = ChecksStatus.failure

abbrev pub is_failure : ChecksStatus → Bool
is_failure ChecksStatus.failure = true
is_failure _ = false

-- `_RANK`, which has no key "pending"
abbrev pub rank : ChecksStatus → Option ℕ
rank ChecksStatus.pending = none
rank ChecksStatus.queued = some 0
rank ChecksStatus.in_progress = some 1
rank ChecksStatus.success = some 2
rank ChecksStatus.failure = some 2

-- `_failure_mail`
abbrev pub failure_mail : CiState → String → ℕ → ℕ → ChecksFailure
failure_mail s fingerprint run_id attempt = record {
  fingerprint = fingerprint;
  head = s.head;
  base = s.base;
  policy = s.policy;
  lineage = s.lineage;
  incarnation = s.incarnation;
  run_id = run_id;
  attempt = attempt;
}

-- `_failure_mail(state, fp, state.best[0], state.best[1])`: an index error on the empty tuple
abbrev pub reissue : CiState → String → Option ChecksFailure
reissue s fp = Option.map (λ p. failure_mail s fp p.0 p.1) s.best

-- the new baton, and a mail if there is one to send
abbrev with_failure : CiState → Option ChecksFailure → Option (List Mail)
with_failure s (some f) = some (ci_state s ∷ esc_failures f ∷ [])
with_failure s none = none

-- the refresh branch of `_admit_head`
admit_refresh : HeadWork → CiState → Option (List Mail)
admit_refresh work s =
    let changed = not (work.base == s.base && work.policy == s.policy) in
    let adopted = record s {
      base = work.base;
      policy = work.policy;
      parked = if changed then [] else s.parked;
    } in
    if changed && is_failure s.status && mem_text s.fingerprint s.parked
    then with_failure adopted (reissue adopted s.fingerprint)
    else some (ci_state adopted ∷ [])

-- the budget lineage that an admitted head gets
abbrev pub admitted_lineage : HeadWork → CiState → String
admitted_lineage work s =
    if is_new_code work.relation || s.lineage == ""
    then "L" ⧺ decimal work.incarnation
    else s.lineage

-- `_admit_head`
pub admit_head : HeadWork → CiState → Option (List Mail)
unfolding admit_refresh
admit_head work s =
    if is_refreshed work.relation
    then admit_refresh work s
    else let fact : ChecksFact = record {
      incarnation = work.incarnation;
      status = ChecksStatus.pending;
    } in
      some (
        ci_state (record {
          head = work.head;
          base = work.base;
          policy = work.policy;
          lineage = admitted_lineage work s;
          incarnation = work.incarnation;
          best = none;
          status = ChecksStatus.pending;
          fingerprint = "";
          parked = [];
        })
        ∷ ready_checks_facts fact
        ∷ dash_facts (checks fact)
        ∷ [])

-- the rest of `_assess`, for a run that is not inert
adopt : RunWork → CiState → List Mail
adopt run s =
    let fact : ChecksFact = record {
      incarnation = s.incarnation;
      status = status_of run.conclusion;
    } in
    ci_state (record s {
      best = some (run.run_id, run.attempt);
      status = status_of run.conclusion;
      fingerprint = run.fingerprint;
      parked = [];
    })
    ∷ ready_checks_facts fact
    ∷ dash_facts (checks fact)
    ∷ (if is_failure (status_of run.conclusion)
        then esc_failures (failure_mail s run.fingerprint run.run_id run.attempt) ∷ []
        else [])

-- `_RANK[run.conclusion] <= _RANK[state.status]`
abbrev rank_le : ChecksStatus → ChecksStatus → Option Bool
rank_le c d = elim (rank c) [
  | none ↦ none
  | some m ↦ elim (rank d) [ none ↦ none | some n ↦ some (leb m n) ]
]

-- the tests of `_assess` on the evidence held; `none` is a KeyError
unfoldable pub stale_on : RunWork → ChecksStatus → Option (ℕ × ℕ) → Option Bool
stale_on run status none = some false
stale_on run status (some best) =
    if pair_lt (run.run_id, run.attempt) best
    then some true
    else if pair_eq (run.run_id, run.attempt) best
    then rank_le (status_of run.conclusion) status
    else some false

-- `_assess`
pub assess : RunWork → CiState → Option (List Mail)
unfolding adopt stale_on
assess run s =
    if not (run.head == s.head)
    then some (ci_state s ∷ [])
    else Option.map (λ stale. if stale then ci_state s ∷ [] else adopt run s)
        (stale_on run s.status s.best)

-- `_recheck`
pub recheck : EscMoved → CiState → Option (List Mail)
recheck echo s =
    if not (is_failure s.status) || not (s.fingerprint == echo.fp)
    then some (ci_state s ∷ [])
    else if echo.head == s.head
        && echo.base == s.base
        && echo.policy == s.policy
        && eqb echo.incarnation s.incarnation
    then some (
        ci_state (record s {
          parked = if mem_text echo.fp s.parked then s.parked else s.parked ++ echo.fp ∷ [];
        })
        ∷ [])
    else with_failure s (reissue s echo.fp)

-- `_end`
pub end : CloseFact → CiState → List Mail
end close s = ci_done (record { status = s.status; reason = close.reason }) ∷ []

-- `_drain_echo`
unfoldable pub drain_echo : EscMoved → CiEnded → List Mail
drain_echo echo ended = ci_done ended ∷ []

-- One token of the loop's mailboxes, the close aside.
pub data CiEvent : Type 0 where
  head_work : HeadWork → CiEvent
  run_work : RunWork → CiEvent
  moved_echo : EscMoved → CiEvent

unfoldable pub fold : CiEvent → CiState → Option (List Mail)
unfolding admit_head assess recheck
fold (head_work w) s = admit_head w s
fold (run_work r) s = assess r s
fold (moved_echo m) s = recheck m s
