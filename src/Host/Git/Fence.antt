-- ===== src/Host/Git/Fence.antt =====
-- Under which authority the git gate codes and publishes, and what its pushes prove.
use hamsterdan.Base.{
  ℕ, ◌+◌, ◌≤◌, String, true, none, some, List, [], ◌∷◌, ◌≡◌, ◌⊎◌, inl, inr, refl, ap, eq_iff, arith,
  All, Bool-cases, Option-cases,
}
use mathlib.Core.Path.{subst}
use hamsterdan.Colors.{MutWork}
use hamsterdan.Mut.Protocol.{CurrentClaim}
use hamsterdan.Host.Broker.{Attempt, done, failed}
use hamsterdan.Host.Rerun.{claim_eq}
use hamsterdan.Host.Rerun.Fence.{claim_eq-eq}
use hamsterdan.Host.Git.Request.{CodingRequest, request}
use hamsterdan.Host.Git.{
  CodingOutcome, coded, agent_failed, Reconciliation, absent, existing, PublicationCategory,
  PublishOutcome, published, rejected, unreachable, GitReads, GitAnswer, pushed, GitCall,
  reconciles, reads_claim, codes, publishes, Gated, expected, correlates, answer_rejected,
  answer_publish, answer_code, under_claim, attempt_code, gate_request, git_gate,
}

-- the publications among the calls
abbrev pub publications : List GitCall → ℕ
publications [] = 0
publications (publishes r op d ∷ cs) = 1 + publications cs
publications (_ ∷ cs) = publications cs

module _ (work : MutWork) (request : CodingRequest) (digest : String) (reads : GitReads) where
  -- no landing of the operation is known, and the claim read before coding is the work's
  abbrev pub Admitted : Type 0
  Admitted = (reads.reconcile ≡ done absent) × (reads.claim ≡ done (expected work))

  -- The agent is called for the request of the work, under its claim; the publisher for a changed
  -- result that answers that request, under the claim read once more. All calls carry the work's identity.
  abbrev pub IsFenced : GitCall → Type 0
  IsFenced (codes q) = Admitted × (q ≡ request)
  IsFenced (publishes r op d) =
      Admitted
      × (reads.claim_after ≡ done (expected work))
      × (reads.code ≡ coded r)
      × (correlates r request ≡ true)
      × (r.status ≡ "changed")
      × (op ≡ work.op_key)
      × (d ≡ digest)
  IsFenced (reconciles op d) = (op ≡ work.op_key) × (d ≡ digest)
  IsFenced reads_claim = Unit

  abbrev pub Fenced : Gated → Type 0
  Fenced p = All IsFenced p.1 × (publications p.1 ≤ 1)

  under-Fenced :
      (a : Attempt CurrentClaim) (next : Gated)
      → (a ≡ done (expected work) → Fenced next)
      → Fenced (under_claim work request digest reads a next)
  unfolding under_claim
  under-Fenced (failed e) next h = (((tt), tt), omega arith)
  under-Fenced (done current) next h = elim (Bool-cases (claim_eq current (expected work))) [
    | inl p ↦ rw p (let g = h (ap done (claim_eq-eq current (expected work) p)) in ((tt, g.0), g.1))
    | inr p ↦ rw p ((tt, tt), omega arith)
  ]

  rejected-IsFenced :
      (c : PublicationCategory) (reason : String)
      → All IsFenced (answer_rejected work request digest reads c reason).1
        × (publications (answer_rejected work request digest reads c reason).1 ≡ 0)
  unfolding answer_rejected
  rejected-IsFenced c reason = ground arith

  publish-IsFenced :
      (o : PublishOutcome)
      → All IsFenced (answer_publish work request digest reads o).1
        × (publications (answer_publish work request digest reads o).1 ≡ 0)
  unfolding answer_publish
  publish-IsFenced (published head) = (tt, refl)
  publish-IsFenced (rejected c reason) = rejected-IsFenced c reason
  publish-IsFenced (unreachable e) = (tt, refl)

  code-Fenced :
      (o : CodingOutcome)
      → reads.code ≡ o
      → Admitted
      → reads.claim_after ≡ done (expected work)
      → Fenced (answer_code work request digest reads o)
  unfolding answer_code
  code-Fenced (agent_failed e) p h c = (tt, omega arith)
  code-Fenced (coded result) p h c =
      ground (arith, eq_iff result.status "changed", publish-IsFenced reads.publish)

  attempt-Fenced : Admitted → Fenced (attempt_code work request digest reads)
  unfolding attempt_code
  attempt-Fenced h =
      let g =
        under-Fenced reads.claim_after (answer_code work request digest reads reads.code)
          (λ c. code-Fenced reads.code refl h c) in
      (((h, refl), g.0), g.1)

  gate-Fenced :
      (a : Attempt Reconciliation)
      → reads.reconcile ≡ a
      → Fenced (gate_request work request digest reads a)
  unfolding gate_request
  gate-Fenced (failed e) p = (((refl, refl), tt), omega arith)
  gate-Fenced (done (existing commit)) p = (((refl, refl), tt), omega arith)
  gate-Fenced (done absent) p =
      let g =
        under-Fenced reads.claim (attempt_code work request digest reads)
          (λ c. attempt-Fenced (p, c)) in
      (((refl, refl), g.0), g.1)

none-ne-gated : {p : Gated} → none ≡ some p → ⊥
none-ne-gated h = cc

some_gated_inj : {p q : Gated} → some p ≡ some q → p ≡ q
some_gated_inj h = cc

-- Whatever the publisher, the claim reader and the agent answer, a round of the git gate calls the
-- agent only if no landing of the operation is known and the claim read equals the work's in every
-- field with the pull request running; and it publishes at most once, only under the claim read again
-- after the agent, and only the agent's changed result that answers the request. Every call of the publisher
-- carries the work's operation identity and the digest of its request.
pub publish-Fenced :
    (short_digest : String → String) (payload_digest : MutWork → CodingRequest → String)
    (repository : String) (pull_request : ℕ) (reads : GitReads) (work : MutWork) (q : CodingRequest)
    (gated : Gated)
    → request short_digest repository pull_request work ≡ some q
    → git_gate short_digest payload_digest repository pull_request reads work ≡ some gated
    → Fenced work q (payload_digest work q) reads gated
unfolding git_gate
publish-Fenced short_digest payload_digest repository pull_request reads work q gated p h =
    subst (Fenced work q (payload_digest work q) reads) (some_gated_inj (rw (p, git_gate) at h))
      (gate-Fenced work q (payload_digest work q) reads reads.reconcile refl)

-- where the head of a push comes from
abbrev pub IsProven : GitReads → GitAnswer → Type 0
IsProven reads (pushed p) =
    (reads.reconcile ≡ done (existing p.new_head))
    ⊎ (reads.publish ≡ published p.new_head)
    ⊎ (reads.reconcile_refused ≡ done (existing p.new_head))
IsProven reads _ = Unit

module _ (work : MutWork) (request : CodingRequest) (digest : String) (reads : GitReads) where
  publish-IsProven :
      (o : PublishOutcome)
      → reads.publish ≡ o
      → IsProven reads (answer_publish work request digest reads o).0
  unfolding answer_publish answer_rejected
  publish-IsProven (published head) p = inr (inl p)
  publish-IsProven (rejected c reason) p = ground arith
  publish-IsProven (unreachable e) p = tt

  code-IsProven : (o : CodingOutcome) → IsProven reads (answer_code work request digest reads o).0
  unfolding answer_code
  code-IsProven (agent_failed e) = tt
  code-IsProven (coded result) = ground (arith, publish-IsProven reads.publish refl)

  under-IsProven :
      (a : Attempt CurrentClaim) (next : Gated)
      → IsProven reads next.0
      → IsProven reads (under_claim work request digest reads a next).0
  unfolding under_claim
  under-IsProven (failed e) next h = tt
  under-IsProven (done current) next h = elim (Bool-cases (claim_eq current (expected work))) [
    | inl p ↦ rw p h
    | inr p ↦ rw p tt
  ]

  gate-IsProven :
      (a : Attempt Reconciliation)
      → reads.reconcile ≡ a
      → IsProven reads (gate_request work request digest reads a).0
  unfolding gate_request attempt_code
  gate-IsProven (failed e) p = tt
  gate-IsProven (done (existing commit)) p = inl p
  gate-IsProven (done absent) p =
      under-IsProven reads.claim (attempt_code work request digest reads) (
        under-IsProven reads.claim_after (answer_code work request digest reads reads.code)
          (code-IsProven reads.code))

-- A push that the git gate reports is proven: its head is the one that the publisher found landed under
-- the operation before coding or after losing the ref, or the one that it published.
pub pushed-IsProven :
    (short_digest : String → String) (payload_digest : MutWork → CodingRequest → String)
    (repository : String) (pull_request : ℕ) (reads : GitReads) (work : MutWork) (gated : Gated)
    → git_gate short_digest payload_digest repository pull_request reads work ≡ some gated
    → IsProven reads gated.0
unfolding git_gate
pushed-IsProven short_digest payload_digest repository pull_request reads work gated h =
    elim (Option-cases (request short_digest repository pull_request work)) [
      | inl p ↦ absurd (none-ne-gated (rw (p, git_gate) at h))
      | inr (q, p) ↦
          subst (λ (r : Gated). IsProven reads r.0) (some_gated_inj (rw (p, git_gate) at h))
            (gate-IsProven work q (payload_digest work q) reads reads.reconcile refl)
    ]
