-- ===== src/Host/Git/Grounded.antt =====
-- Every terminal of the git gate has its grounds in what the collaborators answered.
use hamsterdan.Base.{
  text_equal, text_differs, String, ◌≡◌, ◌≢◌, ◌==◌, inl, inr, refl, ap, sym, Bool-cases,
}
use mathlib.Core.Path.{subst}
use hamsterdan.Colors.{MutWork}
use hamsterdan.Mut.Protocol.{
  CurrentClaim, MutEvent, pushed as pushed_event, moved as moved_event, faulted as faulted_event,
}
use hamsterdan.Host.Broker.{Attempt, done, failed}
use hamsterdan.Host.Rerun.{claim_eq}
use hamsterdan.Host.Rerun.Fence.{claim_eq-eq}
use hamsterdan.Host.Rerun.Grounds.{claim_eq-differs}
use hamsterdan.Host.Git.Request.{CodingRequest}
use hamsterdan.Host.Git.Grounds.{
  event_of, Admitted, Confirmed, Published, Grounds, known, made, recognized, stale, outrun,
  deposed, uncoded, uncorrelated, unchanged, miscorrelated, inadmissible, unreconciled, unclaimed,
  unconfirmed, unpublished, undeposed, unrecognized, fatal,
}
use hamsterdan.Host.Git.{
  CodingOutcome, coded, agent_failed, Reconciliation, absent, existing, PublishOutcome, published,
  rejected, unreachable, PublicationCategory, correlation, patch_admission, current_authority,
  ref_cas, GitReads, Gated, expected, correlates, answer_rejected, answer_publish, answer_code,
  under_claim, attempt_code, gate_request,
}

module _ (work : MutWork) (request : CodingRequest) (digest : String) (reads : GitReads) where
  abbrev IsGrounded : Gated → Type 0
  IsGrounded p = Grounds work request reads (event_of p.0)

  -- the terminal of a rejection is for the event `e`
  IsGrounded-rejected :
      (c : PublicationCategory) (reason : String) (e : MutEvent)
      → event_of (answer_rejected work request digest reads c reason).0 ≡ e
      → Grounds work request reads e
      → IsGrounded (answer_rejected work request digest reads c reason)
  IsGrounded-rejected c reason e p g = subst (Grounds work request reads) (sym p) g

  deposed-IsGrounded :
      (reason : String) (a : Attempt CurrentClaim)
      → Published work request reads (rejected current_authority reason)
      → reads.claim_refused ≡ a
      → IsGrounded (answer_rejected work request digest reads current_authority reason)
  unfolding answer_rejected
  deposed-IsGrounded reason (failed e) h p =
      IsGrounded-rejected current_authority reason (faulted_event e) (rw p refl)
        (undeposed e reason h p)
  deposed-IsGrounded reason (done c) h p =
      IsGrounded-rejected current_authority reason (moved_event c) (rw p refl)
        (deposed c reason h p)

  ref_lost-IsGrounded :
      (reason : String) (a : Attempt Reconciliation)
      → Published work request reads (rejected ref_cas reason)
      → reads.reconcile_refused ≡ a
      → IsGrounded (answer_rejected work request digest reads ref_cas reason)
  unfolding answer_rejected
  ref_lost-IsGrounded reason (failed e) h p =
      IsGrounded-rejected ref_cas reason (faulted_event e) (rw p refl)
        (unrecognized e reason h (inl p))
  ref_lost-IsGrounded reason (done absent) h p =
      IsGrounded-rejected ref_cas reason (faulted_event reason) (rw p refl)
        (unrecognized reason reason h (inr (p, refl)))
  ref_lost-IsGrounded reason (done (existing head)) h p =
      IsGrounded-rejected ref_cas reason (pushed_event head) (rw p refl)
        (recognized head reason h p)

  rejected-IsGrounded :
      (c : PublicationCategory) (reason : String)
      → Published work request reads (rejected c reason)
      → IsGrounded (answer_rejected work request digest reads c reason)
  unfolding answer_rejected
  rejected-IsGrounded correlation reason h = miscorrelated reason h
  rejected-IsGrounded patch_admission reason h = inadmissible reason h
  rejected-IsGrounded current_authority reason h =
      deposed-IsGrounded reason reads.claim_refused h refl
  rejected-IsGrounded ref_cas reason h = ref_lost-IsGrounded reason reads.reconcile_refused h refl
  rejected-IsGrounded PublicationCategory.repository_ref reason h =
      fatal PublicationCategory.repository_ref reason h tt
  rejected-IsGrounded PublicationCategory.git_operation reason h =
      fatal PublicationCategory.git_operation reason h tt
  rejected-IsGrounded PublicationCategory.idempotency reason h =
      fatal PublicationCategory.idempotency reason h tt
  rejected-IsGrounded PublicationCategory.object_write reason h =
      fatal PublicationCategory.object_write reason h tt
  rejected-IsGrounded PublicationCategory.boundary_unavailable reason h =
      fatal PublicationCategory.boundary_unavailable reason h tt

  publish-IsGrounded :
      (o : PublishOutcome)
      → Published work request reads o
      → IsGrounded (answer_publish work request digest reads o)
  unfolding answer_publish
  publish-IsGrounded (published head) h = made head h
  publish-IsGrounded (rejected c reason) h = rejected-IsGrounded c reason h
  publish-IsGrounded (unreachable e) h = unpublished e h

  code-IsGrounded :
      (o : CodingOutcome)
      → reads.code ≡ o
      → Confirmed work request reads
      → IsGrounded (answer_code work request digest reads o)
  unfolding answer_code
  code-IsGrounded (agent_failed e) p c = uncoded e c p
  code-IsGrounded (coded r) p c = elim (Bool-cases (correlates r request)) [
    | inr q ↦ rw q (uncorrelated r c p q)
    | inl q ↦ elim (Bool-cases (r.status == "changed")) [
      | inr s ↦ rw (q, s) (unchanged r c p q (text_differs s))
      | inl s ↦ rw (q, s) (publish-IsGrounded reads.publish (r, c, p, q, text_equal s, refl))
    ]
  ]

  -- a claim that was read
  under-IsGrounded :
      (a : Attempt CurrentClaim) (next : Gated)
      → ((e : String) → a ≡ failed e → Grounds work request reads (faulted_event e))
      → ((c : CurrentClaim)
          → a ≡ done c
          → c ≢ expected work
          → Grounds work request reads (moved_event c))
      → (a ≡ done (expected work) → IsGrounded next)
      → IsGrounded (under_claim work request digest reads a next)
  unfolding under_claim
  under-IsGrounded (failed e) next f m h = f e refl
  under-IsGrounded (done c) next f m h = elim (Bool-cases (claim_eq c (expected work))) [
    | inl p ↦ rw p (h (ap done (claim_eq-eq c (expected work) p)))
    | inr p ↦ rw p (m c refl (claim_eq-differs c (expected work) p))
  ]

  attempt-IsGrounded :
      Admitted work request reads → IsGrounded (attempt_code work request digest reads)
  unfolding attempt_code
  attempt-IsGrounded h =
      under-IsGrounded reads.claim_after (answer_code work request digest reads reads.code)
        (λ e p. unconfirmed e h p) (λ c p n. outrun c h p n)
        (λ p. code-IsGrounded reads.code refl (h, p))

  pub gate-IsGrounded :
      (a : Attempt Reconciliation)
      → reads.reconcile ≡ a
      → Grounds work request reads (event_of (gate_request work request digest reads a).0)
  unfolding gate_request
  gate-IsGrounded (failed e) p = unreconciled e p
  gate-IsGrounded (done (existing head)) p = known head p
  gate-IsGrounded (done absent) p =
      under-IsGrounded reads.claim (attempt_code work request digest reads) (λ e q. unclaimed e p q)
        (λ c q n. stale c p q n) (λ q. attempt-IsGrounded (p, q))
