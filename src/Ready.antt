-- ===== src/Ready.antt =====
-- src/hamsterdan/readiness/net_v5/readiness.py: the all-gates projection and the announcement.
-- `none` from a fold is an exception of the source.
pub mod Protocol
pub mod Authority
pub mod Custody
pub mod Wiring
mod Examples
pub mod Once
pub mod Faults
pub mod Total
use mathlib.Core.Bool.{beq}
use hamsterdan.Base.{
  ℕ, String, Bool, true, false, not, ◌||◌, ◌&&◌, Option, none, some, List, [], ◌∷◌, ◌++◌, ◌==◌, ltb,
  eqb, is_some, if◌then◌else◌, ◌⧺◌, decimal, Dict, get, put, without,
}
use hamsterdan.Colors.{
  Phase, running, phase_eq, ChecksStatus, ReviewStatus, Snapshot, AnnounceReq, StateFact,
  ChecksFact, ReviewFact, FindingsFact, HumanFact, MutationPendingFact, MutationSettledFact,
  FaultRaisedFact, FaultClearedFact, Owner, owner_text, RecoverFact, CloseFact, AnnounceCandidate,
  ALanded, ADeferred, AWake, ABlocked, AMoved, AFault, ReadyEnded, announced, announce_fault, Mail,
  ready_snap, ready_candidate, ready_announce_req, ready_deferred, ready_done, dash_facts,
}

-- `seed`
abbrev pub seed : Snapshot
seed = record {
  incarnation = 0;
  phase = none;
  head = "";
  base = "";
  policy = "";
  mergeable = false;
  checks = ChecksStatus.pending;
  review = ReviewStatus.pending;
  findings_blocking = 0;
  approval = false;
  changes_requested = false;
  unresolved = 0;
  pending = [];
  faults = [];
  announced = [];
  candidate = false;
  announcing = none;
  blocked = none;
  strict_base = true;
  base_current = false;
  closing = none;
}

-- `snap.phase == "running"`
abbrev pub is_running : Option Phase → Bool
is_running none = false
is_running (some p) = phase_eq p running

abbrev pub is_success : ChecksStatus → Bool
is_success ChecksStatus.success = true
is_success _ = false

abbrev pub is_clear : ReviewStatus → Bool
is_clear ReviewStatus.clear = true
is_clear _ = false

-- the truth value of a sequence or a dictionary is `not is_empty`
abbrev pub is_empty {ℓ} : {A : Type ℓ} → List A → Bool
is_empty [] = true
is_empty (_ ∷ _) = false

-- `in` on a tuple of integers
abbrev pub mem_ℕ : ℕ → List ℕ → Bool
mem_ℕ n [] = false
mem_ℕ n (m ∷ ms) = eqb n m || mem_ℕ n ms

-- `_ready`
unfoldable pub ready : Snapshot → Bool
ready s =
    is_running s.phase
    && is_success s.checks
    && is_clear s.review
    && eqb s.findings_blocking 0
    && s.approval
    && not s.changes_requested
    && eqb s.unresolved 0
    && s.mergeable
    && (not s.strict_base || s.base_current)
    && is_empty s.pending
    && is_empty s.faults

-- `_announce_viable`
unfoldable pub announce_viable : Snapshot → Bool
announce_viable s =
    ready s
    && not (mem_ℕ s.incarnation s.announced)
    && not (is_some s.announcing)
    && not (is_some s.blocked)
    && not (is_some s.closing)

-- `_announce_open`
unfoldable pub announce_open : Snapshot → List Mail
announce_open s =
    if announce_viable s && not s.candidate
    then ready_snap (record s { candidate = true })
      ∷ ready_candidate (record { incarnation = s.incarnation; head = s.head })
      ∷ []
    else ready_snap s ∷ []

-- the request that `_authorize` mints
abbrev pub request_of : Snapshot → AnnounceReq
request_of s = record {
  op = "ready:" ⧺ s.head ⧺ ":i" ⧺ decimal s.incarnation;
  incarnation = s.incarnation;
  head = s.head;
  base = s.base;
  policy = s.policy;
  strict_base = s.strict_base;
  base_current = s.base_current;
}

-- `_authorize`
unfoldable pub authorize : Snapshot → List Mail
authorize snap =
    let s = record snap { candidate = false } in
    if not (announce_viable s)
    then ready_snap s ∷ []
    else ready_snap (record s { announcing = some (request_of s) })
      ∷ ready_announce_req (request_of s)
      ∷ []

-- `_current`
abbrev pub current : Snapshot → ℕ → Bool
current s incarnation = eqb incarnation 0 || eqb incarnation s.incarnation

-- the reset of `_apply_state` under another incarnation
abbrev readmit : StateFact → Snapshot → Snapshot
readmit f s = if eqb f.incarnation s.incarnation then s else record s {
  incarnation = f.incarnation;
  checks = ChecksStatus.pending;
  review = ReviewStatus.pending;
  findings_blocking = 0;
  pending = [];
}

-- `_apply_state`
unfoldable pub apply_state : Snapshot → StateFact → Option Snapshot
apply_state s f =
    if ltb f.incarnation s.incarnation
    then none
    else some (record (readmit f s) {
      phase = some f.body.phase;
      head = f.body.head;
      base = f.body.base;
      mergeable = f.body.mergeable;
      policy = f.body.policy;
      strict_base = f.body.strict_base;
      base_current = f.body.base_current;
    })

-- `_apply_checks`
unfoldable pub apply_checks : Snapshot → ChecksFact → Option Snapshot
apply_checks s f = if current s f.incarnation then some (record s { checks = f.status }) else none

-- `_apply_review`
unfoldable pub apply_review : Snapshot → ReviewFact → Option Snapshot
apply_review s f = if current s f.incarnation then some (record s { review = f.status }) else none

-- `_apply_findings`
unfoldable pub apply_findings : Snapshot → FindingsFact → Option Snapshot
apply_findings s f =
    if current s f.incarnation then some (record s { findings_blocking = f.blocking }) else none

-- `_apply_human`
unfoldable pub apply_human : Snapshot → HumanFact → Option Snapshot
apply_human s f =
    if not (current s f.incarnation)
    then none
    else some (record s {
      approval = f.approval;
      changes_requested = f.changes_requested;
      unresolved = f.unresolved;
    })

-- `_apply_mutation_pending`
unfoldable pub apply_mutation_pending : Snapshot → MutationPendingFact → Option Snapshot
apply_mutation_pending s f =
    if not (current s f.incarnation)
    then none
    else some (record s { pending = s.pending ++ f.op_key ∷ [] })

-- `tuple(key for key in keys if key != k)`
abbrev pub drop_key : String → List String → List String
drop_key k [] = []
drop_key k (j ∷ js) = let rest = drop_key k js in if j == k then rest else j ∷ rest

-- `_apply_mutation_settled`
unfoldable pub apply_mutation_settled : Snapshot → MutationSettledFact → Option Snapshot
apply_mutation_settled s f =
    if not (current s f.incarnation)
    then none
    else some (record s { pending = drop_key f.body.op_key s.pending })

-- `f"{where}:{op}"`
abbrev pub fault_key : Owner → String → String
fault_key owner op = owner_text owner ⧺ ":" ⧺ op

-- `_apply_fault_raised`
unfoldable pub apply_fault_raised : Snapshot → FaultRaisedFact → Snapshot
apply_fault_raised s f = record s { faults = put (fault_key f.owner f.op) f.reason s.faults }

-- `_apply_fault_cleared`
unfoldable pub apply_fault_cleared : Snapshot → FaultClearedFact → Snapshot
apply_fault_cleared s f = record s { faults = without (fault_key f.owner f.op) s.faults }

-- `_fold_applied`
unfoldable pub fold_applied : Snapshot → Option Snapshot → List Mail
unfolding announce_open
fold_applied s none = ready_snap s ∷ []
fold_applied s (some applied) = announce_open applied

-- `_ended`
abbrev pub ended_of : Snapshot → ReadyEnded
ended_of s = record {
  announced = s.announced;
  faults = s.faults;
  reason = elim s.closing [ none ↦ "" | some reason ↦ reason ];
}

-- `_settle`
unfoldable pub settle : Snapshot → List Mail → List Mail
unfolding announce_open
settle s extra =
    extra ++ (if is_some s.closing then ready_done (ended_of s) ∷ [] else announce_open s)

-- `_fold_alanded`
unfoldable pub fold_alanded : ALanded → Snapshot → List Mail
unfolding settle
fold_alanded out snap =
    settle (record snap { announced = snap.announced ++ out.incarnation ∷ []; announcing = none })
      (dash_facts (announced out.incarnation out.head) ∷ [])

-- `==` on the dumps of two requests
abbrev pub req_eq : AnnounceReq → AnnounceReq → Bool
req_eq a b =
    a.op == b.op
    && eqb a.incarnation b.incarnation
    && a.head == b.head
    && a.base == b.base
    && a.policy == b.policy
    && beq a.strict_base b.strict_base
    && beq a.base_current b.base_current

-- `snap.announcing == request.dump()`; an empty dictionary is no request's
abbrev pub is_announcing : Snapshot → AnnounceReq → Bool
is_announcing s r = elim s.announcing [ none ↦ false | some a ↦ req_eq a r ]

-- `_announce_request`
abbrev pub deferred_request : ADeferred → AnnounceReq
deferred_request d = record {
  op = d.op;
  incarnation = d.incarnation;
  head = d.head;
  base = d.base;
  policy = d.policy;
  strict_base = d.strict_base;
  base_current = d.base_current;
}

-- `deferred.dump() == wake.dump()`
abbrev pub wakes : ADeferred → AWake → Bool
wakes d w =
    d.op == w.op
    && eqb d.incarnation w.incarnation
    && d.head == w.head
    && d.base == w.base
    && d.policy == w.policy
    && beq d.strict_base w.strict_base
    && beq d.base_current w.base_current
    && d.blocker == w.blocker

-- `_fold_adeferred`
unfoldable pub fold_adeferred : ADeferred → Snapshot → Option (List Mail)
fold_adeferred out s =
    if is_announcing s (deferred_request out)
    then some (ready_snap s ∷ ready_deferred out ∷ [])
    else none

-- `_wake_deferred`
unfoldable pub wake_deferred : ADeferred → AWake → Snapshot → Option (List Mail)
unfolding settle
wake_deferred d w snap =
    if not (wakes d w) || not (is_announcing snap (deferred_request d))
    then none
    else let s = record snap { announcing = none } in
      some (
        if not (announce_viable s)
        then settle s []
        else ready_snap (record s { announcing = some (deferred_request d) })
          ∷ ready_announce_req (deferred_request d)
          ∷ [])

-- `_fold_ablocked`
unfoldable pub fold_ablocked : ABlocked → Snapshot → List Mail
fold_ablocked out snap =
    let s = record snap { announcing = none; blocked = snap.announcing } in
    if is_some s.closing then ready_done (ended_of s) ∷ [] else ready_snap s ∷ []

abbrev phase_opt_eq : Option Phase → Option Phase → Bool
phase_opt_eq none none = true
phase_opt_eq (some p) (some q) = phase_eq p q
phase_opt_eq _ _ = false

-- the gate's observation is the snapshot's authority
abbrev pub is_observed : AMoved → Snapshot → Bool
is_observed out s =
    s.head == out.observed_head
    && s.base == out.observed_base
    && s.policy == out.observed_policy
    && eqb s.incarnation out.observed_incarnation
    && phase_opt_eq s.phase out.observed_phase

-- `_fold_amoved`
unfoldable pub fold_amoved : AMoved → Snapshot → List Mail
unfolding announce_open
fold_amoved out snap =
    let s = record snap { announcing = none } in
    if is_some s.closing
    then ready_done (ended_of s) ∷ []
    else if is_observed out s
    then announce_open s
    else ready_snap s ∷ []

-- `_fold_afault`
unfoldable pub fold_afault : AFault → Snapshot → List Mail
unfolding settle
fold_afault out snap =
    settle
      (record snap {
        announcing = none;
        faults = put ("announce:" ⧺ out.op) out.reason snap.faults;
      })
      (dash_facts (announce_fault out.op out.reason) ∷ [])

unfoldable pub recover_blocked : RecoverFact → Snapshot → Option AnnounceReq → List Mail
recover_blocked fact s none = ready_snap s ∷ []
recover_blocked fact s (some r) =
    if not (fact.target == "readiness") || not (fact.op == r.op) || is_some s.closing
    then ready_snap s ∷ []
    else ready_snap (record s { announcing = some r; blocked = none }) ∷ ready_announce_req r ∷ []

-- `_recover`
unfoldable pub recover : RecoverFact → Snapshot → List Mail
unfolding recover_blocked
recover fact s = recover_blocked fact s s.blocked

-- `_end`
unfoldable pub end : CloseFact → Snapshot → List Mail
end close snap =
    let s = record snap { closing = some close.reason } in
    if is_some s.announcing then ready_snap s ∷ [] else ready_done (ended_of s) ∷ []

-- `_drain`, and the drains of recoveries, candidates and wakes: the token is absorbed
unfoldable pub drain : ReadyEnded → List Mail
drain ended = ready_done ended ∷ []
