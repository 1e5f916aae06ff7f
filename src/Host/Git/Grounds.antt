-- ===== src/Host/Git/Grounds.antt =====
-- What the collaborators answered when the git gate reports a terminal.
use hamsterdan.Base.{String, true, false, ◌≡◌, ◌≢◌, ◌⊎◌}
use hamsterdan.Colors.{MutWork}
use hamsterdan.Mut.Protocol.{
  CurrentClaim, MutEvent, pushed as pushed_event, moved as moved_event, declined as declined_event,
  faulted as faulted_event,
}
use hamsterdan.Host.Broker.{done, failed}
use hamsterdan.Host.Git.Request.{CodingRequest}
use hamsterdan.Host.Git.{
  CodingResult, AgentError, coded, agent_failed, absent, existing, PublishOutcome, published,
  rejected, unreachable, PublicationCategory, correlation, patch_admission, current_authority,
  ref_cas, GitReads, GitAnswer, pushed, moved, faulted, declined, expected, correlates,
  agent_category, unchanged_category,
}

-- the event of custody's protocol that the answer is
abbrev pub event_of : GitAnswer → MutEvent
event_of (pushed p) = pushed_event p.new_head
event_of (moved m) = moved_event (record {
  phase = m.observed_phase;
  incarnation = m.observed_incarnation;
  head = m.observed;
  base = m.observed_base;
  policy = m.observed_policy;
})
event_of (declined d) = declined_event d.category d.reason
event_of (faulted f) = faulted_event f.reason

-- a rejection that is neither of the agent's result nor of the authority nor of the ref
abbrev pub IsFatal : PublicationCategory → Type 0
IsFatal correlation = ⊥
IsFatal patch_admission = ⊥
IsFatal current_authority = ⊥
IsFatal ref_cas = ⊥
IsFatal _ = Unit

module _ (work : MutWork) (request : CodingRequest) (reads : GitReads) where
  -- no landing of the operation was known, and the claim read before coding was the work's
  abbrev pub Admitted : Type 0
  Admitted = (reads.reconcile ≡ done absent) × (reads.claim ≡ done (expected work))

  -- and so was the claim read after coding
  abbrev pub Confirmed : Type 0
  Confirmed = Admitted × (reads.claim_after ≡ done (expected work))

  -- a changed result that answers the request was published under both claims, with this outcome
  abbrev pub Published : PublishOutcome → Type 0
  Published o =
      (r : CodingResult) × Confirmed
      × (reads.code ≡ coded r)
      × (correlates r request ≡ true)
      × (r.status ≡ "changed")
      × (reads.publish ≡ o)

  -- what the collaborators must have answered for an event of custody's protocol
  pub data Grounds : MutEvent → Type 0 where
    known : (head : String) → reads.reconcile ≡ done (existing head) → Grounds (pushed_event head)
    made : (head : String) → Published (published head) → Grounds (pushed_event head)
    recognized :
        (head reason : String)
        → Published (rejected ref_cas reason)
        → reads.reconcile_refused ≡ done (existing head)
        → Grounds (pushed_event head)
    stale :
        (c : CurrentClaim)
        → reads.reconcile ≡ done absent
        → reads.claim ≡ done c
        → c ≢ expected work
        → Grounds (moved_event c)
    outrun :
        (c : CurrentClaim)
        → Admitted
        → reads.claim_after ≡ done c
        → c ≢ expected work
        → Grounds (moved_event c)
    deposed :
        (c : CurrentClaim) (reason : String)
        → Published (rejected current_authority reason)
        → reads.claim_refused ≡ done c
        → Grounds (moved_event c)
    uncoded :
        (e : AgentError)
        → Confirmed
        → reads.code ≡ agent_failed e
        → Grounds (declined_event (agent_category e) e.reason)
    uncorrelated :
        (r : CodingResult)
        → Confirmed
        → reads.code ≡ coded r
        → correlates r request ≡ false
        → Grounds (declined_event "correlation" "agent result did not match its request")
    unchanged :
        (r : CodingResult)
        → Confirmed
        → reads.code ≡ coded r
        → correlates r request ≡ true
        → r.status ≢ "changed"
        → Grounds
            (declined_event (unchanged_category r.status) "agent produced no publishable change")
    miscorrelated :
        (reason : String)
        → Published (rejected correlation reason)
        → Grounds (declined_event "correlation" reason)
    inadmissible :
        (reason : String)
        → Published (rejected patch_admission reason)
        → Grounds (declined_event "patch_admission" reason)
    unreconciled :
        (reason : String) → reads.reconcile ≡ failed reason → Grounds (faulted_event reason)
    unclaimed :
        (reason : String)
        → reads.reconcile ≡ done absent
        → reads.claim ≡ failed reason
        → Grounds (faulted_event reason)
    unconfirmed :
        (reason : String)
        → Admitted
        → reads.claim_after ≡ failed reason
        → Grounds (faulted_event reason)
    unpublished :
        (reason : String) → Published (unreachable reason) → Grounds (faulted_event reason)
    undeposed :
        (reason why : String)
        → Published (rejected current_authority why)
        → reads.claim_refused ≡ failed reason
        → Grounds (faulted_event reason)
    unrecognized :
        (reason why : String)
        → Published (rejected ref_cas why)
        → (reads.reconcile_refused ≡ failed reason)
          ⊎ ((reads.reconcile_refused ≡ done absent) × (reason ≡ why))
        → Grounds (faulted_event reason)
    fatal :
        (c : PublicationCategory) (reason : String)
        → Published (rejected c reason)
        → IsFatal c
        → Grounds (faulted_event reason)
