-- ===== src/Host/Git.antt =====
-- V5MutationGate of src/hamsterdan/host/v5/mutation.py: one coding attempt, published once. What the
-- publisher, the claim reader and the agent answer is a parameter; the calls are recorded. The two
-- digests are parameters too. `none` is the ValueError of a malformed request.
pub mod Request
pub mod Fence
pub mod Grounds
pub mod Grounded
pub mod Refinement
mod Examples
use hamsterdan.Base.{
  ℕ, String, Bool, true, false, not, ◌&&◌, ◌||◌, Option, none, some, List, [], ◌∷◌, ◌++◌, ◌==◌, eqb,
  if◌then◌else◌,
}
use hamsterdan.Colors.{running, MutWork, Pushed, MovedM, FaultM, DeclinedM}
use hamsterdan.Mut.Protocol.{CurrentClaim, pushed_of, moved_of, declined_of, fault_of}
use hamsterdan.Host.Broker.{Attempt, done, failed}
use hamsterdan.Host.Rerun.{claim_eq}
use hamsterdan.Host.Git.Request.{CodingRequest, request}

-- the fields of CodingResult that the gate reads
pub record CodingResult : Type 0 where
  pub kind : String
  pub repository : String
  pub pull_request : ℕ
  pub epoch : ℕ
  pub head : String
  pub base : String
  pub ref : String
  pub status : String

-- AgentProtocolError
pub record AgentError : Type 0 where
  pub reason : String
  pub canceled : Bool
  pub timed_out : Bool
  pub result_category : Option String
  pub cleanup_category : Option String

pub data CodingOutcome : Type 0 where
  coded : CodingResult → CodingOutcome
  agent_failed : AgentError → CodingOutcome

-- GitReconciliation
pub data Reconciliation : Type 0 where
  absent : Reconciliation
  existing : String → Reconciliation

pub data PublicationCategory : Type 0 where
  correlation repository_ref patch_admission git_operation idempotency : PublicationCategory
  current_authority object_write ref_cas boundary_unavailable : PublicationCategory

-- GitPublishError is `rejected`, GitHubBoundaryError `unreachable`
pub data PublishOutcome : Type 0 where
  published : String → PublishOutcome
  rejected : PublicationCategory → String → PublishOutcome
  unreachable : String → PublishOutcome

-- What the collaborators answer in one round, by the order of the calls.
pub record GitReads : Type 0 where
  pub reconcile : Attempt Reconciliation
  pub claim : Attempt CurrentClaim
  pub code : CodingOutcome
  pub claim_after : Attempt CurrentClaim
  pub publish : PublishOutcome
  pub claim_refused : Attempt CurrentClaim
  pub reconcile_refused : Attempt Reconciliation

pub data GitAnswer : Type 0 where
  pushed : Pushed → GitAnswer
  moved : MovedM → GitAnswer
  faulted : FaultM → GitAnswer
  declined : DeclinedM → GitAnswer

-- a call of a collaborator, with the operation identity and the digest that it is given
pub data GitCall : Type 0 where
  reconciles : String → String → GitCall
  reads_claim : GitCall
  codes : CodingRequest → GitCall
  publishes : CodingResult → String → String → GitCall

abbrev pub Gated : Type 0
Gated = GitAnswer × List GitCall

-- `_agent_category`
abbrev pub agent_category : AgentError → String
agent_category e =
    if e.timed_out then "timed_out" else if e.canceled then "canceled" else elim e.result_category [
      | some c ↦ c
      | none ↦ elim e.cleanup_category [ some c ↦ c | none ↦ "protocol" ]
    ]

-- the claim that the work was made under
abbrev pub expected : MutWork → CurrentClaim
expected work = record {
  phase = running;
  incarnation = work.incarnation;
  head = work.head;
  base = work.base;
  policy = work.policy;
}

-- `correlation == expected_correlation`
abbrev pub correlates : CodingResult → CodingRequest → Bool
correlates r q =
    r.kind == q.kind
    && r.repository == q.repository
    && eqb r.pull_request q.pull_request
    && eqb r.epoch q.epoch
    && r.head == q.head
    && r.base == q.base
    && r.ref == q.ref

-- the category of a result that is no change
abbrev pub unchanged_category : String → String
unchanged_category status =
    if status == "unchanged" || status == "unable" then status else "output_schema"

abbrev pub fault : MutWork → String → GitAnswer
fault work reason = faulted (fault_of work reason)

abbrev pub decline : MutWork → String → String → GitAnswer
decline work category reason = declined (declined_of work category reason)

module _ (work : MutWork) (request : CodingRequest) (digest : String) (reads : GitReads) where
  -- a publication that was rejected
  unfoldable pub answer_rejected : PublicationCategory → String → Gated
  answer_rejected correlation reason = (decline work "correlation" reason, [])
  answer_rejected patch_admission reason = (decline work "patch_admission" reason, [])
  answer_rejected current_authority reason = elim reads.claim_refused [
    | failed e ↦ (fault work e, reads_claim ∷ [])
    | done current ↦ (moved (moved_of work current), reads_claim ∷ [])
  ]
  answer_rejected ref_cas reason = elim reads.reconcile_refused [
    | failed e ↦ (fault work e, reconciles work.op_key digest ∷ [])
    | done absent ↦ (fault work reason, reconciles work.op_key digest ∷ [])
    | done (existing commit) ↦ (pushed (pushed_of work commit), reconciles work.op_key digest ∷ [])
  ]
  answer_rejected _ reason = (fault work reason, [])

  unfoldable pub answer_publish : PublishOutcome → Gated
  unfolding answer_rejected
  answer_publish (published head) = (pushed (pushed_of work head), [])
  answer_publish (rejected category reason) = answer_rejected category reason
  answer_publish (unreachable e) = (fault work e, [])

  -- the agent's outcome, under a claim that still holds
  unfoldable pub answer_code : CodingOutcome → Gated
  unfolding answer_publish
  answer_code (agent_failed e) = (decline work (agent_category e) e.reason, [])
  answer_code (coded result) =
      if not (correlates result request)
      then (decline work "correlation" "agent result did not match its request", [])
      else if not (result.status == "changed")
      then (
        decline work (unchanged_category result.status) "agent produced no publishable change",
        [],
      )
      else let p = answer_publish reads.publish in (p.0, publishes result work.op_key digest ∷ p.1)

  -- a claim that was read: `next` if it is the expected one
  unfoldable pub under_claim : Attempt CurrentClaim → Gated → Gated
  under_claim (failed e) next = (fault work e, reads_claim ∷ [])
  under_claim (done current) next =
      if claim_eq current (expected work)
      then (next.0, reads_claim ∷ next.1)
      else (moved (moved_of work current), reads_claim ∷ [])

  -- the coding attempt, and the claim read after it
  unfoldable pub attempt_code : Gated
  unfolding under_claim answer_code
  attempt_code =
      let p = under_claim reads.claim_after (answer_code reads.code) in (p.0, codes request ∷ p.1)

  -- `git_gate`, for a request that is well formed
  unfoldable pub gate_request : Attempt Reconciliation → Gated
  unfolding under_claim attempt_code
  gate_request (failed e) = (fault work e, reconciles work.op_key digest ∷ [])
  gate_request (done (existing commit)) =
      (pushed (pushed_of work commit), reconciles work.op_key digest ∷ [])
  gate_request (done absent) =
      let p = under_claim reads.claim attempt_code in (p.0, reconciles work.op_key digest ∷ p.1)

-- `git_gate`: `short_digest` is `sha256(…).hexdigest()[:32]`, `payload_digest` the digest of the
-- operation, the policy and the request
unfoldable pub git_gate :
    (String → String)
    → (MutWork → CodingRequest → String)
    → String
    → ℕ
    → GitReads
    → MutWork
    → Option Gated
unfolding gate_request
git_gate short_digest payload_digest repository pull_request reads work =
    elim (request short_digest repository pull_request work) [
      | none ↦ none
      | some q ↦ some (gate_request work q (payload_digest work q) reads reads.reconcile)
    ]
