-- ===== src/Host/Rerun.antt =====
-- V5RerunGate of src/hamsterdan/host/v5/rerun.py, over the broker.
pub mod Fence
pub mod Once
pub mod Grounds
pub mod Echo
mod Examples
use mathlib.Core.Bool.{beq}
use hamsterdan.Base.{
  ℕ, String, Bool, true, false, not, ◌&&◌, ◌||◌, Option, none, some, List, [], ◌∷◌, ◌==◌, eqb,
  if◌then◌else◌, ◌⧺◌,
}
use hamsterdan.Colors.{
  Phase, running, phase_eq, RerunReq, RerunLanded, RerunMoved, RerunFault, Disposition,
}
use hamsterdan.Esc.Protocol.{landed_of, moved_of, fault_of}
use hamsterdan.Mut.Protocol.{CurrentClaim}
use hamsterdan.Host.Broker.{
  Attempt, done, failed, Run, RerunIssue, IssueOutcome, issued, refused, raised, Comment, Reads,
  held, find_run, issue,
}

pub data RerunAnswer : Type 0 where
  landed : RerunLanded → RerunAnswer
  moved : RerunMoved → RerunAnswer
  faulted : RerunFault → RerunAnswer

-- `==` on claims
abbrev pub claim_eq : CurrentClaim → CurrentClaim → Bool
claim_eq a b =
    phase_eq a.phase b.phase
    && eqb a.incarnation b.incarnation
    && a.head == b.head
    && a.base == b.base
    && a.policy == b.policy

-- `existing`
abbrev pub existing : RerunReq → RerunAnswer
existing work = landed (landed_of work Disposition.existing work.run_id work.attempt)

abbrev pub fault : RerunReq → String → RerunAnswer
fault work reason = faulted (fault_of work reason)

-- the claim that the request was made under
abbrev pub expected : RerunReq → CurrentClaim
expected work = record {
  phase = running;
  incarnation = work.incarnation;
  head = work.head;
  base = work.base;
  policy = work.policy;
}

-- the answer to an issue that went through
abbrev pub classify : RerunReq → RerunIssue → RerunAnswer
classify work i =
    if not i.result.capability_available
    then fault work "the provider proved it cannot publish the rerun request"
    else if i.result.status == "existing"
    then existing work
    else if not (i.result.status == "requested")
    then fault work ("unclassified rerun status '" ⧺ i.result.status ⧺ "'")
    else landed (landed_of work Disposition.requested i.cut_run_id i.cut_attempt)

abbrev pub answer_issue : RerunReq → IssueOutcome → RerunAnswer
answer_issue work (issued i) = classify work i
answer_issue work refused = moved (moved_of work)
answer_issue work (raised e) = fault work e

-- from the read of the runs on
unfoldable pub request_run : String → Reads → List Comment → RerunReq → RerunAnswer × List Comment
request_run bot reads comments work = elim (reads.runs work.head) [
  | failed e ↦ (fault work e, comments)
  | done reported ↦ elim (find_run work.run_id reported) [
    | none ↦ (moved (moved_of work), comments)
    | some run ↦ let p = issue bot reads comments run work.op in (answer_issue work p.0, p.1)
  ]
]

-- `rerun_gate`, with the comments that it leaves
unfoldable pub rerun_gate : String → Reads → List Comment → RerunReq → RerunAnswer × List Comment
unfolding request_run
rerun_gate bot reads comments work = elim (held bot reads comments work.run_id work.head work.op) [
  | failed e ↦ (fault work e, comments)
  | done true ↦ (existing work, comments)
  | done false ↦ elim reads.claim [
    | failed e ↦ (fault work e, comments)
    | done current ↦
        if not (claim_eq current (expected work))
        then (moved (moved_of work), comments)
        else request_run bot reads comments work
  ]
]
