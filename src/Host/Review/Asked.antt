-- ===== src/Host/Review/Asked.antt =====
-- When the agent is asked for a review, and what a review that the gate reports rests on.
use hamsterdan.Base.{
  String, true, false, Option, none, some, List, [], ◌∷◌, ◌≡◌, inl, inr, refl, sym, ◌∙◌, ap, arith,
  eq_iff, ◌==◌, Bool-cases, All, ◌&&◌, ◌||◌,
}
use mathlib.Core.Path.{subst}
use hamsterdan.Colors.{RoundOpen}
use hamsterdan.Host.Broker.{Run}
use hamsterdan.Review.Protocol.{RoundAnswer, reviewed}
use hamsterdan.Host.Rerun.{claim_eq}
use hamsterdan.Host.Rerun.Fence.{claim_eq-eq}
use hamsterdan.Host.Review.Request.{
  Comment, ReviewRequest, ReviewGate, compose_request, is_valid_request,
}
use hamsterdan.Host.Review.{
  Store, lookup, claim_request, ReviewResult, RunnerOutcome, agent_failed, ClaimOutcome, read,
  unreachable, ReviewReads, Ask, Reviewed, expected, is_none, defer_or, answer_result, answer_run,
  asking, ask, ask_valid, ask_retained, on_evidence, on_unstaged, on_request, on_claim, on_lookup,
  review_agent,
}

valid-scalars :
    (gate : ReviewGate) (work : RoundOpen) (r : ReviewRequest)
    → is_valid_request gate work r ≡ true
    → (r.head ≡ work.head) × (r.base ≡ work.base) × (r.epoch ≡ work.incarnation)
unfolding is_valid_request
valid-scalars gate work r p =
    (ground (arith, eq_iff r.head work.head), ground (arith, eq_iff r.base work.base), ground arith)

result-reviewed :
    (result : ReviewResult)
    → (result.status == "unable") ≡ false
    → (result.status == "clear" || result.status == "blocking") ≡ true
    → answer_result result ≡ some (reviewed result.findings result.lineage)
result-reviewed result q k = rw (q, k) refl

module _ (gate : ReviewGate) (reads : ReviewReads) (work : RoundOpen) where
  -- the call is that of the round, with no custody unstaged and under the claim of the round
  abbrev pub IsGrounded : Ask → Type 0
  IsGrounded a =
      (reads.unstaged ≡ none)
      × (reads.claim ≡ read (expected work))
      × (a.operation ≡ work.operation)
      × (a.attempt ≡ work.attempt)
      × (a.request.head ≡ work.head)
      × (a.request.base ≡ work.base)
      × (a.request.epoch ≡ work.incarnation)

  -- a review is the result, clear or blocking, of the one call, and no custody was unstaged after it
  abbrev pub IsEarned : Option RoundAnswer → List Ask → Type 0
  IsEarned (some (reviewed fs lineage)) asks =
      (request : ReviewRequest) × (result : ReviewResult) × (asks
        ≡ asking gate reads work request ∷ [])
      × (reads.runner request work.operation work.attempt ≡ RunnerOutcome.returned result)
      × ((result.status == "clear" || result.status == "blocking") ≡ true)
      × (result.findings ≡ fs)
      × (result.lineage ≡ lineage)
      × (reads.unstaged_after ≡ none)
  IsEarned _ asks = Unit

  abbrev pub Asked : Reviewed → Type 0
  Asked p = All IsGrounded p.1 × IsEarned p.0 p.1

  defer-IsEarned :
      (o : Option String) (a : Option RoundAnswer) (asks : List Ask)
      → (o ≡ none → IsEarned a asks)
      → IsEarned (defer_or o a) asks
  defer-IsEarned none a asks f = f refl
  defer-IsEarned (some b) a asks f = tt

  result-IsEarned :
      (request : ReviewRequest) (result : ReviewResult)
      → reads.runner request work.operation work.attempt ≡ RunnerOutcome.returned result
      → reads.unstaged_after ≡ none
      → IsEarned (answer_result result) (asking gate reads work request ∷ [])
  result-IsEarned request result p u = elim (Bool-cases (result.status == "unable")) [
    | inl q ↦ rw q tt
    | inr q ↦ elim (Bool-cases (result.status == "clear" || result.status == "blocking")) [
      | inr k ↦ rw (q, k) tt
      | inl k ↦
          subst (λ a. IsEarned a (asking gate reads work request ∷ []))
            (sym (result-reviewed result q k)) (request, result, refl, p, k, refl, refl, u)
    ]
  ]

  run-IsEarned :
      (request : ReviewRequest) (o : RunnerOutcome)
      → reads.runner request work.operation work.attempt ≡ o
      → IsEarned (answer_run reads o) (asking gate reads work request ∷ [])
  unfolding answer_run
  run-IsEarned request RunnerOutcome.raised p = tt
  run-IsEarned request (agent_failed e) p =
      elim (Bool-cases (e.canceled && is_none e.cleanup_category)) [
        | inl q ↦ rw q (defer-IsEarned reads.unstaged_canceled _ _ (λ u. tt))
        | inr q ↦ rw q tt
      ]
  run-IsEarned request (RunnerOutcome.returned result) p =
      defer-IsEarned reads.unstaged_after (answer_result result) _
        (result-IsEarned request result p)

  ask-Asked :
      (request : ReviewRequest) (store : Store)
      → reads.unstaged ≡ none
      → reads.claim ≡ read (expected work)
      → is_valid_request gate work request ≡ true
      → Asked (ask gate reads work request store)
  unfolding ask
  ask-Asked request store u c v =
      let s = valid-scalars gate work request v in
      (
        ((u, c, refl, refl, s.0, s.1, s.2), tt),
        run-IsEarned request (reads.runner request work.operation work.attempt) refl,
      )

  ask_valid-Asked :
      (request : ReviewRequest) (store : Store)
      → reads.unstaged ≡ none
      → reads.claim ≡ read (expected work)
      → Asked (ask_valid gate reads work request store)
  unfolding ask_valid
  ask_valid-Asked request store u c = elim (Bool-cases (is_valid_request gate work request)) [
    | inl q ↦ rw q (ask-Asked request store u c q)
    | inr q ↦ rw q (tt, tt)
  ]

  retained-Asked :
      (store : Store) (o : Option (ReviewRequest × Store))
      → reads.unstaged ≡ none
      → reads.claim ≡ read (expected work)
      → Asked (ask_retained gate reads work store o)
  unfolding ask_retained
  retained-Asked store none u c = (tt, tt)
  retained-Asked store (some (r, after)) u c = ask_valid-Asked r after u c

  evidence-Asked :
      (store : Store) (e : Option (List Comment × Option Run))
      → reads.unstaged ≡ none
      → reads.claim ≡ read (expected work)
      → Asked (on_evidence gate reads work store e)
  unfolding on_evidence
  evidence-Asked store none u c = (tt, tt)
  evidence-Asked store (some (comments, run)) u c =
      retained-Asked store
        (claim_request work.operation (compose_request gate work comments run) work.attempt store) u
        c

  -- a request that was looked up is valid
  abbrev IsChecked : Option ReviewRequest → Type 0
  IsChecked none = Unit
  IsChecked (some request) = is_valid_request gate work request ≡ true

  request-Asked :
      (request : Option ReviewRequest) (store : Store)
      → reads.unstaged ≡ none
      → reads.claim ≡ read (expected work)
      → IsChecked request
      → Asked (on_request gate reads work request store)
  unfolding on_request
  request-Asked (some request) store u c h = ask-Asked request store u c h
  request-Asked none store u c h = evidence-Asked store reads.evidence u c

  claim-Asked :
      (request : Option ReviewRequest) (store : Store) (o : ClaimOutcome)
      → reads.unstaged ≡ none
      → reads.claim ≡ o
      → IsChecked request
      → Asked (on_claim gate reads work request store o)
  unfolding on_claim
  claim-Asked request store ClaimOutcome.raised u c h = (tt, tt)
  claim-Asked request store unreachable u c h =
      (tt, defer-IsEarned reads.unstaged_claim none [] (λ e. tt))
  claim-Asked request store (read observed) u c h =
      elim (Bool-cases (claim_eq observed (expected work))) [
        | inr q ↦ rw q (tt, tt)
        | inl q ↦
            rw q (
              request-Asked request store u (c ∙ ap read (claim_eq-eq observed (expected work) q))
                h)
      ]

  lookup-Asked :
      (request : Option ReviewRequest) (store : Store)
      → reads.unstaged ≡ none
      → Asked (on_lookup gate reads work request store)
  unfolding on_lookup
  lookup-Asked none store u = claim-Asked none store reads.claim u refl tt
  lookup-Asked (some request) store u = elim (Bool-cases (is_valid_request gate work request)) [
    | inl q ↦ rw q (claim-Asked (some request) store reads.claim u refl q)
    | inr q ↦ rw q (tt, tt)
  ]

  unstaged-Asked :
      (store : Store) (o : Option String)
      → reads.unstaged ≡ o
      → Asked (on_unstaged gate reads work store o)
  unfolding on_unstaged
  unstaged-Asked store (some b) u = (tt, tt)
  unstaged-Asked store none u = lookup-Asked (lookup work.operation work.attempt store) store u

-- Whatever its collaborators answer and its store holds, the review gate asks the agent only with no
-- custody known to be unstaged, under a claim read that equals the round's in every field with the pull
-- request running, under the round's operation and attempt, and with a request for the round's head,
-- base and incarnation. A review that it reports is the result, clear or blocking, of its one call,
-- after which no custody was unstaged.
pub review-Asked :
    (gate : ReviewGate) (reads : ReviewReads) (work : RoundOpen) (store : Store)
    → Asked gate reads work (review_agent gate reads work store)
unfolding review_agent
review-Asked gate reads work store = unstaged-Asked gate reads work store reads.unstaged refl
