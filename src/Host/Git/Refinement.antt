-- ===== src/Host/Git/Refinement.antt =====
-- The git gate keeps the protocol that mutation custody relies on.
use hamsterdan.Base.{ℕ, String, some, List, ◌≡◌, ◌==◌, refl, arith, inl, inr, Bool-cases}
use mathlib.Core.Path.{subst}
use hamsterdan.Colors.{MutWork, Mail}
use hamsterdan.Mut.{fold_pushed, fold_moved, fold_declined, fold_fault}
use hamsterdan.Mut.Protocol.{CurrentClaim, emit, in_flight}
use hamsterdan.Host.Broker.{Attempt, done, failed}
use hamsterdan.Host.Rerun.{claim_eq}
use hamsterdan.Host.Git.Request.{CodingRequest, request}
use hamsterdan.Host.Git.Grounds.{event_of, Grounds}
use hamsterdan.Host.Git.Grounded.{gate-IsGrounded}
use hamsterdan.Host.Git.{
  CodingOutcome, coded, agent_failed, Reconciliation, absent, existing, PublishOutcome, published,
  rejected, unreachable, GitReads, GitAnswer, pushed, moved, faulted, declined, Gated, expected,
  correlates, PublicationCategory, answer_rejected, answer_publish, answer_code, under_claim,
  attempt_code, gate_request, git_gate,
}

-- the fold that the answer's color is routed to
abbrev pub fold_of : GitAnswer → List Mail
fold_of (pushed p) = fold_pushed p
fold_of (moved m) = fold_moved m
fold_of (declined d) = fold_declined d
fold_of (faulted f) = fold_fault f

module _ (work : MutWork) (request : CodingRequest) (digest : String) (reads : GitReads) where
  abbrev pub Refines : Gated → Type 0
  Refines p = emit (in_flight work) (event_of p.0) ≡ fold_of p.0

  rejected-Refines :
      (c : PublicationCategory) (reason : String)
      → Refines (answer_rejected work request digest reads c reason)
  unfolding answer_rejected emit
  rejected-Refines c reason = ground arith

  publish-Refines : (o : PublishOutcome) → Refines (answer_publish work request digest reads o)
  unfolding answer_publish emit
  publish-Refines (published head) = refl
  publish-Refines (rejected c reason) = rejected-Refines c reason
  publish-Refines (unreachable e) = refl

  code-Refines : (o : CodingOutcome) → Refines (answer_code work request digest reads o)
  unfolding answer_code emit
  code-Refines (agent_failed e) = refl
  code-Refines (coded result) = elim (Bool-cases (correlates result request)) [
    | inr p ↦ rw p refl
    | inl p ↦ elim (Bool-cases (result.status == "changed")) [
      | inr q ↦ rw (p, q) refl
      | inl q ↦ rw (p, q) (publish-Refines reads.publish)
    ]
  ]

  under-Refines :
      (a : Attempt CurrentClaim) (next : Gated)
      → Refines next
      → Refines (under_claim work request digest reads a next)
  unfolding under_claim emit
  under-Refines (failed e) next h = refl
  under-Refines (done current) next h = elim (Bool-cases (claim_eq current (expected work))) [
    | inl p ↦ rw p h
    | inr p ↦ rw p refl
  ]

  request-Refines :
      (a : Attempt Reconciliation) → Refines (gate_request work request digest reads a)
  unfolding gate_request attempt_code emit
  request-Refines (failed e) = refl
  request-Refines (done (existing commit)) = refl
  request-Refines (done absent) =
      under-Refines reads.claim (attempt_code work request digest reads) (
        under-Refines reads.claim_after (answer_code work request digest reads reads.code)
          (code-Refines reads.code))

abbrev Implements : MutWork → CodingRequest → GitReads → Gated → Type 0
Implements work q reads p =
    (emit (in_flight work) (event_of p.0) ≡ fold_of p.0) × Grounds work q reads (event_of p.0)

some_gated_inj : {p q : Gated} → some p ≡ some q → p ≡ q
some_gated_inj h = cc

-- The git gate refines the protocol of mutation custody: whatever its collaborators answer, folding the
-- gate's terminal is the transition of custody's protocol from the work in flight, for one of its
-- events; and that event has its grounds in what they answered. A push was found landed, or was
-- published or recognized after a lost ref, under both claims, from a changed result that answers the
-- request. A move was a claim read, before or after coding, that is not the work's, or the one read
-- when the authority was refused. A decline was the agent's failure, a result that does not answer the
-- request or changes nothing, or a rejection of the result, under both claims. A fault was a read that
-- failed, or a rejection of another kind.
pub git_gate_refines :
    (short_digest : String → String) (payload_digest : MutWork → CodingRequest → String)
    (repository : String) (pull_request : ℕ) (reads : GitReads) (work : MutWork) (q : CodingRequest)
    (gated : Gated)
    → request short_digest repository pull_request work ≡ some q
    → git_gate short_digest payload_digest repository pull_request reads work ≡ some gated
    → (emit (in_flight work) (event_of gated.0) ≡ fold_of gated.0)
      × Grounds work q reads (event_of gated.0)
unfolding git_gate
git_gate_refines short_digest payload_digest repository pull_request reads work q gated p h =
    subst (Implements work q reads) (some_gated_inj (rw (p, git_gate) at h)) (
      request-Refines work q (payload_digest work q) reads reads.reconcile,
      gate-IsGrounded work q (payload_digest work q) reads reads.reconcile refl,
    )
