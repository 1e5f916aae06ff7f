-- ===== src/Review/Settle.antt =====
-- The folds of the review loop that settle a publication, and those that a human or a close asks for.
use hamsterdan.Base.{
  String, Bool, true, false, not, ◌&&◌, ◌||◌, Option, none, some, List, [], ◌∷◌, ◌++◌, ◌==◌,
  if◌then◌else◌,
}
use hamsterdan.Colors.{
  ReviewStatus, mem_text, CloseFact, RecoverFact, DismissFact, Finding, PubPhase, PubRecord, Pub,
  idle, held, stray, ReviewMemory, RoundDeferred, Publishable, PublicationDeferred, EmptyReview,
  ReviewLanded, ReviewMoved, ReviewBlocked, ReviewFault, ReviewEnded, FaultRaisedFact, Owner,
  ClearedStatus, fault_raised, Mail, dash_facts, ready_fault_raised_facts, review_memory,
  review_publishable, review_done,
}
use hamsterdan.Review.Custody.{
  live, status_of, Settled, cleared, is_judged, settlement_facts, cleared_fact, resolution,
  fact_routes,
}

-- a memory whose publication is settled, or retained
abbrev pub settled_memory : ReviewMemory → ReviewMemory
settled_memory mem = record mem { provisional = []; publication = idle }

-- `_fold_landed`
unfoldable pub fold_landed : ReviewLanded → List Mail
fold_landed out =
    let mem = settled_memory out.mem in
    review_memory mem
    ∷ fact_routes (settlement_facts mem out.head out.incarnation ++ resolution out.mem.publication)

-- `_fold_moved`
unfoldable pub fold_moved : ReviewMoved → List Mail
fold_moved out =
    review_memory (record out.mem { provisional = out.findings; publication = idle })
    ∷ fact_routes (resolution out.mem.publication)

-- the descriptor that a blocked publication retains
abbrev pub blocked_record : ReviewBlocked → PubRecord
blocked_record out = record {
  phase = PubPhase.blocked;
  effect = out.effect;
  op = out.op;
  head = out.head;
  base = out.base;
  policy = out.policy;
  incarnation = out.incarnation;
  findings = out.findings;
  refusal = some out.refusal;
  reason = none;
  was = none;
}

-- `_fold_blocked`
unfoldable pub fold_blocked : ReviewBlocked → List Mail
fold_blocked out =
    let mem = record out.mem { publication = held (blocked_record out) } in
    review_memory mem
    ∷ fact_routes (settlement_facts mem out.head out.incarnation ++ resolution out.mem.publication)

-- `{**pub, "phase": "faulted", "reason": reason}`
abbrev pub faulted_pub : Pub → String → Pub
faulted_pub (held p) reason = held (record p { phase = PubPhase.faulted; reason = some reason })
faulted_pub _ reason = stray reason

-- `pub.get("op", "")`
abbrev pub op_of : Pub → String
op_of (held p) = p.op
op_of _ = ""

-- `_fold_fault`
unfoldable pub fold_fault : ReviewFault → List Mail
fold_fault out =
    let fact : FaultRaisedFact = record {
      owner = Owner.review;
      op = op_of out.mem.publication;
      reason = out.reason;
    } in
    review_memory (record out.mem { publication = faulted_pub out.mem.publication out.reason })
    ∷ ready_fault_raised_facts fact
    ∷ dash_facts (fault_raised fact)
    ∷ []

-- `_fold_empty`
unfoldable pub fold_empty : EmptyReview → List Mail
fold_empty out =
    let mem = settled_memory out.mem in
    review_memory mem ∷ fact_routes (settlement_facts mem out.head out.incarnation)

-- the phase is "blocked" or "faulted"
abbrev pub is_retained : PubPhase → Bool
is_retained PubPhase.blocked = true
is_retained PubPhase.faulted = true
is_retained _ = false

-- the retained publication, reopened
abbrev pub reopened : PubRecord → ReviewMemory → Publishable
reopened p mem = record {
  head = p.head;
  base = p.base;
  policy = p.policy;
  incarnation = p.incarnation;
  findings = p.findings;
  effect = p.effect;
  op = p.op;
  mem = record mem {
    publication = held (record p { phase = PubPhase.pending; reason = none; was = some p.phase });
  };
}

-- `_recover`, by the descriptor
unfoldable pub recover_pub : RecoverFact → ReviewMemory → Pub → List Mail
recover_pub fact mem (held p) =
    if not (fact.target == "review") || not (is_retained p.phase) || not (fact.op == p.op)
    then review_memory mem ∷ []
    else review_publishable (reopened p mem) ∷ []
recover_pub fact mem _ = review_memory mem ∷ []

-- `_recover`
unfoldable pub recover : RecoverFact → ReviewMemory → List Mail
unfolding recover_pub
recover fact mem = recover_pub fact mem mem.publication

-- `any(f["id"] == finding_id for f in findings)`
abbrev pub has_id : String → List Finding → Bool
has_id id [] = false
has_id id (f ∷ fs) = f.id == id || has_id id fs

-- the retained operation carries the finding
abbrev pub is_carried : String → Pub → Bool
is_carried id (held p) = is_retained p.phase && has_id id p.findings
is_carried id _ = false

-- the descriptor, cancelled if the operation carries the finding
abbrev pub cancelled_pub : String → Pub → Pub
cancelled_pub id (held p) =
    if is_carried id (held p) then held (record p { phase = PubPhase.cancelled }) else held p
cancelled_pub id p = p

abbrev pub is_faulted_phase : PubPhase → Bool
is_faulted_phase PubPhase.faulted = true
is_faulted_phase _ = false

-- the fault that a cancelled operation clears
abbrev pub cancellation : String → Pub → List Settled
cancellation id (held p) =
    if is_carried id (held p) && is_faulted_phase p.phase
    then cleared (cleared_fact p.op ClearedStatus.cancelled) ∷ []
    else []
cancellation id _ = []

-- the memory once a finding is dismissed
abbrev pub dismissed_memory : String → ReviewMemory → ReviewMemory
dismissed_memory id mem = record mem {
  dismissed = if mem_text id mem.dismissed then mem.dismissed else mem.dismissed ++ id ∷ [];
  publication = cancelled_pub id mem.publication;
}

-- the memory with its status recounted
abbrev pub recounted : ReviewMemory → ReviewMemory
recounted mem =
    if is_judged mem.status
    then record mem { status = status_of mem.findings mem.dismissed }
    else mem

-- the facts of a dismissal of a finding that the review shows
abbrev pub recount_facts : ReviewMemory → List Settled
recount_facts mem = settlement_facts (recounted mem) mem.head mem.incarnation

-- `_dismiss`
unfoldable pub dismiss : DismissFact → ReviewMemory → List Mail
dismiss fact mem =
    let updated = dismissed_memory fact.finding_id mem in
    let faults = cancellation fact.finding_id mem.publication in
    if has_id fact.finding_id updated.findings
    then review_memory (recounted updated) ∷ fact_routes (recount_facts updated ++ faults)
    else review_memory updated ∷ fact_routes faults

abbrev pub pub_phase_of : Pub → Option PubPhase
pub_phase_of idle = none
pub_phase_of (held p) = some p.phase
pub_phase_of (stray reason) = some PubPhase.faulted

abbrev pub ended_of : CloseFact → ReviewMemory → ReviewEnded
ended_of close mem = record {
  reviewed = mem.reviewed;
  pub_phase = pub_phase_of mem.publication;
  reason = close.reason;
}

-- `_end`
unfoldable pub end : CloseFact → ReviewMemory → List Mail
end close mem = review_done (ended_of close mem) ∷ []

-- `_end_deferred`
unfoldable pub end_deferred : CloseFact → RoundDeferred → List Mail
end_deferred close d = review_done (ended_of close d.mem) ∷ []

-- `_end_publication_deferred`
unfoldable pub end_publication_deferred : CloseFact → PublicationDeferred → List Mail
end_publication_deferred close d = review_done (ended_of close d.mem) ∷ []

-- `_drain_dismiss`, `_drain_recover` and `_drain_wake`
unfoldable pub drain : ReviewEnded → List Mail
drain ended = review_done ended ∷ []

-- `seed`
abbrev pub seed : String → ReviewMemory
seed subject = record {
  subject = subject;
  head = "";
  incarnation = 0;
  status = ReviewStatus.pending;
  reviewed = [];
  provisional = [];
  findings = [];
  lineage = [];
  dismissed = [];
  publication = idle;
}

-- `live_findings`
abbrev pub live_findings : ReviewMemory → List Finding
live_findings mem = live mem.findings mem.dismissed
