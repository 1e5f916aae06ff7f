-- ===== src/Esc.antt =====
-- src/hamsterdan/readiness/net_v5/esc.py: the escalation ladder. `none` from a fold is an exception
-- of the source (a missing key).
pub mod Wiring
mod Examples
pub mod Protocol
pub mod Soundness
pub mod Budget
pub mod Reruns
pub mod Recovery
pub mod Safety
pub mod Closing
use hamsterdan.Base.{
  ℕ, String, Bool, true, false, not, ◌||◌, ◌&&◌, Option, none, some, List, [], ◌∷◌, ◌++◌, ◌==◌,
  pair_lt, pair_le, pair_max, is_some, if◌then◌else◌, ◌⧺◌, Dict, get, put, without,
}
use hamsterdan.Colors.{
  ChecksFailure, Rung, RepairState, RepairEntry, FaultEntry, Ladder, EscMoved, MutationRequest,
  MutationSettled, Outcome, Owner, FaultRaisedFact, FaultClearedFact, ClearedStatus, RecoverFact,
  CloseFact, RerunReq, RerunLanded, Disposition, RerunMoved, RerunFault, LadderEnded, human_needed,
  fault_raised, fault_cleared, Mail, esc_ladder, esc_rerun_req, esc_failures, esc_done,
  mut_requests, ci_echo, dash_facts, ready_fault_raised_facts, ready_fault_cleared_facts,
}

-- `seed`
abbrev pub seed : Ladder
seed = record { reruns = []; repairs = []; rerun_faults = []; closing = none }

-- the rung key
abbrev pub key_of : ChecksFailure → String
key_of f = f.lineage ⧺ ":" ⧺ f.fingerprint

abbrev pub evidence : ChecksFailure → ℕ × ℕ
evidence f = (f.run_id, f.attempt)

-- the rerun request of `_decide`; the ladder is held in it
abbrev pub rerun_request : ChecksFailure → Ladder → RerunReq
rerun_request f ladder = record {
  fingerprint = key_of f;
  fp = f.fingerprint;
  op = "rerun:" ⧺ key_of f;
  head = f.head;
  base = f.base;
  policy = f.policy;
  incarnation = f.incarnation;
  run_id = f.run_id;
  attempt = f.attempt;
  mem = ladder;
}

-- the pending entry and the mutation request of `_decide`
abbrev pub pending_entry : ChecksFailure → RepairEntry
pending_entry f = record {
  state = RepairState.pending;
  fp = f.fingerprint;
  head = f.head;
  base = f.base;
  policy = f.policy;
  incarnation = f.incarnation;
  run_id = f.run_id;
  attempt = f.attempt;
}

abbrev pub repair_request : ChecksFailure → MutationRequest
repair_request f = record {
  op = "repair:" ⧺ key_of f;
  rid = "repair:" ⧺ key_of f;
  head = f.head;
  base = f.base;
  policy = f.policy;
  incarnation = f.incarnation;
  source = "escalation";
  kind = "repair";
  instruction = "";
  run_id = f.run_id;
  attempt = f.attempt;
}

-- the fault of a rung retains the newest failure that it blocks
abbrev retain : ChecksFailure → FaultEntry → Ladder → Ladder
retain f held ladder =
    let retained = record ladder {
      rerun_faults = put (key_of f) (record held { blocked = some f }) ladder.rerun_faults;
    } in
    elim held.blocked [
      | none ↦ retained
      | some b ↦ if pair_lt (evidence b) (evidence f) then retained else ladder
    ]

-- a rung whose rerun faulted; `none` is a missing key of `rerun_faults`
decide_faulted : ChecksFailure → Ladder → Option FaultEntry → Option (List Mail)
decide_faulted f ladder none = none
decide_faulted f ladder (some held) = some (
    esc_ladder (retain f held ladder)
    ∷ dash_facts (human_needed f.incarnation f.fingerprint f.head true)
    ∷ [])

-- a rung whose rerun is done, and evidence that it has not answered
decide_repair : ChecksFailure → Ladder → Option RepairEntry → List Mail
decide_repair f ladder none =
    esc_ladder (record ladder { repairs = put (key_of f) (pending_entry f) ladder.repairs })
    ∷ mut_requests (repair_request f)
    ∷ []
decide_repair f ladder (some entry) = elim entry.state [
  | RepairState.pending ↦ esc_ladder ladder ∷ []
  | _ ↦
      if pair_le (evidence f) (entry.run_id, entry.attempt)
      then esc_ladder ladder ∷ []
      else esc_ladder ladder
        ∷ dash_facts (human_needed f.incarnation f.fingerprint f.head false)
        ∷ []
]

decide_rung : ChecksFailure → Ladder → Option Rung → Option (List Mail)
unfolding decide_faulted decide_repair
decide_rung f ladder none = some (esc_rerun_req (rerun_request f ladder) ∷ [])
decide_rung f ladder (some Rung.fault) =
    decide_faulted f ladder (get (key_of f) ladder.rerun_faults)
decide_rung f ladder (some (Rung.done run_id attempt)) =
    if pair_le (evidence f) (run_id, attempt)
    then some (esc_ladder ladder ∷ [])
    else some (decide_repair f ladder (get (key_of f) ladder.repairs))

-- `_decide`
unfoldable pub decide : ChecksFailure → Ladder → Option (List Mail)
unfolding decide_rung
decide f ladder =
    if is_some ladder.closing
    then some (esc_ladder ladder ∷ [])
    else decide_rung f ladder (get (key_of f) ladder.reruns)

-- `next((k for k, v in faults.items() if v["op"] == fact.op), None)`, with the value
abbrev pub find_op : String → Dict FaultEntry → Option (String × FaultEntry)
find_op op [] = none
find_op op ((k, v) ∷ faults) = if v.op == op then some (k, v) else find_op op faults

abbrev pub is_faulted : Option Rung → Bool
is_faulted (some Rung.fault) = true
is_faulted _ = false

-- the request that a recovery reissues
abbrev pub recovery_request : String → FaultEntry → Ladder → RerunReq
recovery_request key held ladder = record {
  fingerprint = key;
  fp = held.fp;
  op = held.op;
  head = held.head;
  base = held.base;
  policy = held.policy;
  incarnation = held.incarnation;
  run_id = held.run_id;
  attempt = held.attempt;
  mem = record ladder { reruns = without key ladder.reruns };
}

recover_found : RecoverFact → Ladder → Option (String × FaultEntry) → List Mail
recover_found fact ladder none = esc_ladder ladder ∷ []
recover_found fact ladder (some (key, held)) =
    if is_some ladder.closing
      || not (fact.target == "esc")
      || not (is_faulted (get key ladder.reruns))
    then esc_ladder ladder ∷ []
    else esc_rerun_req (recovery_request key held ladder) ∷ []

-- `_recover`
unfoldable pub recover : RecoverFact → Ladder → List Mail
unfolding recover_found
recover fact ladder = recover_found fact ladder (find_op fact.op ladder.rerun_faults)

-- the resolution that is mailed when a round consumes a retained fault
abbrev resolution : Option FaultEntry → List Mail
resolution none = []
resolution (some held) =
    let fact : FaultClearedFact = record {
      owner = Owner.rerun;
      op = held.op;
      status = ClearedStatus.resolved;
    } in
    ready_fault_cleared_facts fact ∷ dash_facts (fault_cleared fact) ∷ []

abbrev blocked_of : Option FaultEntry → Option ChecksFailure
blocked_of none = none
blocked_of (some held) = held.blocked

-- the evidence that the landed rerun answers
abbrev pub watermark : RerunLanded → Option ChecksFailure → ℕ × ℕ
watermark out blocked = elim out.disposition [
  | Disposition.existing ↦ (out.run_id, out.attempt)
  | Disposition.requested ↦ elim blocked [
    | none ↦ pair_max (out.run_id, out.attempt) (out.cut_run_id, out.cut_attempt)
    | some b ↦
        pair_max (pair_max (out.run_id, out.attempt) (out.cut_run_id, out.cut_attempt)) (evidence b)
  ]
]

abbrev replay : Disposition → Option ChecksFailure → List Mail
replay Disposition.existing (some b) = esc_failures b ∷ []
replay _ _ = []

-- `_fold_rerun_landed`
unfoldable pub fold_rerun_landed : RerunLanded → List Mail
fold_rerun_landed out =
    let held = get out.fingerprint out.mem.rerun_faults in
    let mark = watermark out (blocked_of held) in
    esc_ladder (record out.mem {
      reruns = put out.fingerprint (Rung.done mark.0 mark.1) out.mem.reruns;
      rerun_faults = without out.fingerprint out.mem.rerun_faults;
    })
    ∷ (resolution held ++ replay out.disposition (blocked_of held))

-- `_fold_rerun_moved`
unfoldable pub fold_rerun_moved : RerunMoved → List Mail
fold_rerun_moved out =
    let held = get out.fingerprint out.mem.rerun_faults in
    esc_ladder (
      if is_some held
      then record out.mem { rerun_faults = without out.fingerprint out.mem.rerun_faults }
      else out.mem)
    ∷ ci_echo (record {
      fp = out.fp;
      head = out.head;
      base = out.base;
      policy = out.policy;
      incarnation = out.incarnation;
    })
    ∷ resolution held

-- the exact request that a fault retains
abbrev pub retained_of : RerunFault → FaultEntry
retained_of out = record {
  op = out.op;
  reason = out.reason;
  fp = out.fp;
  head = out.head;
  base = out.base;
  policy = out.policy;
  incarnation = out.incarnation;
  run_id = out.run_id;
  attempt = out.attempt;
  blocked = blocked_of (get out.fingerprint out.mem.rerun_faults);
}

-- `_fold_rerun_fault`
unfoldable pub fold_rerun_fault : RerunFault → List Mail
fold_rerun_fault out =
    let fact : FaultRaisedFact = record { owner = Owner.rerun; op = out.op; reason = out.reason } in
    esc_ladder (record out.mem {
      reruns = put out.fingerprint Rung.fault out.mem.reruns;
      rerun_faults = put out.fingerprint (retained_of out) out.mem.rerun_faults;
    })
    ∷ ready_fault_raised_facts fact
    ∷ dash_facts (fault_raised fact)
    ∷ []

abbrev pub is_pending : RepairEntry → Bool
is_pending e = elim e.state [ RepairState.pending ↦ true | _ ↦ false ]

-- `_pending_repairs`
abbrev pub pending_repairs : Dict RepairEntry → Bool
pending_repairs [] = false
pending_repairs ((k, e) ∷ repairs) = is_pending e || pending_repairs repairs

-- the end of `_fold_settled`: retire if the ladder was waiting for this, else go on
abbrev or_retire : Ladder → Dict RepairEntry → List Mail → List Mail
or_retire ladder repairs more = elim ladder.closing [
  | none ↦ esc_ladder (record ladder { repairs = repairs }) ∷ more
  | some reason ↦
      if not (pending_repairs repairs)
      then esc_done (record { reruns = ladder.reruns; repairs = repairs; reason = reason }) ∷ []
      else esc_ladder (record ladder { repairs = repairs }) ∷ more
]

settle_entry : MutationSettled → Ladder → RepairEntry → Outcome → List Mail
settle_entry m ladder entry Outcome.landed =
    or_retire ladder (put m.fingerprint (record entry { state = RepairState.done }) ladder.repairs)
      []
settle_entry m ladder entry Outcome.declined =
    or_retire ladder
      (put m.fingerprint (record entry { state = RepairState.declined }) ladder.repairs) []
settle_entry m ladder entry Outcome.moved =
    or_retire ladder (without m.fingerprint ladder.repairs) (
      ci_echo (record {
        fp = entry.fp;
        head = entry.head;
        base = entry.base;
        policy = entry.policy;
        incarnation = entry.incarnation;
      })
      ∷ [])
settle_entry m ladder entry Outcome.faulted =
    or_retire ladder (put m.fingerprint (record entry { state = RepairState.fault }) ladder.repairs)
      []

settle_found : MutationSettled → Ladder → Option RepairEntry → List Mail
unfolding settle_entry
settle_found m ladder none = esc_ladder ladder ∷ []
settle_found m ladder (some entry) =
    if m.fingerprint == "" || not (m.op == "repair:" ⧺ m.fingerprint)
    then esc_ladder ladder ∷ []
    else settle_entry m ladder entry m.outcome

-- `_fold_settled`
unfoldable pub fold_settled : MutationSettled → Ladder → List Mail
unfolding settle_found
fold_settled m ladder = settle_found m ladder (get m.fingerprint ladder.repairs)

-- `_end`
unfoldable pub end : CloseFact → Ladder → List Mail
end close ladder =
    if pending_repairs ladder.repairs
    then esc_ladder (record ladder { closing = some close.reason }) ∷ []
    else esc_done
        (record { reruns = ladder.reruns; repairs = ladder.repairs; reason = close.reason })
      ∷ []

-- `_drain_recover`
unfoldable pub drain_recover : RecoverFact → LadderEnded → List Mail
drain_recover fact ended = esc_done ended ∷ []
