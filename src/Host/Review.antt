-- ===== src/Host/Review.antt =====
-- V5ReviewGate and V5ReviewRequestStore (src/hamsterdan/host/v5/review.py). What the agent, the provider,
-- the claim reader and the test for unstaged custody answer is a parameter; the calls of the agent are
-- recorded. The store is its table's rows; the encoding of a row is the library's.
pub mod Request
pub mod Asked
pub mod Frozen
mod Examples
use hamsterdan.Base.{
  ℕ, String, Bool, true, false, not, ◌&&◌, ◌||◌, Option, none, some, List, [], ◌∷◌, ◌++◌, ◌==◌, eqb,
  if◌then◌else◌, Dict,
}
use hamsterdan.Colors.{running, Finding, RoundOpen}
use hamsterdan.Mut.Protocol.{CurrentClaim}
use hamsterdan.Review.Protocol.{RoundAnswer, reviewed, deferred, moved, unable_to}
use hamsterdan.Host.Broker.{Run}
use hamsterdan.Host.Rerun.{claim_eq}
use hamsterdan.Host.Git.{AgentError}
use hamsterdan.Host.Review.Request.{
  Comment, ReviewRequest, ReviewGate, compose_request, is_valid_request,
}

-- a row of v5_review_requests
pub record Row : Type 0 where
  pub operation : String
  pub attempt : ℕ
  pub request : ReviewRequest

abbrev pub Store : Type 0
Store = List Row

abbrev pub is_key : String → ℕ → Row → Bool
is_key operation attempt row = row.operation == operation && eqb row.attempt attempt

-- V5ReviewRequestStore.lookup
unfoldable pub lookup : String → ℕ → Store → Option ReviewRequest
lookup operation attempt [] = none
lookup operation attempt (row ∷ rows) =
    if is_key operation attempt row then some row.request else lookup operation attempt rows

abbrev pub row_of : String → ℕ → ReviewRequest → Row
row_of operation attempt request = record {
  operation = operation;
  attempt = attempt;
  request = request;
}

-- the row that is there is kept, or the row is inserted; the check of the table ignores a row of
-- attempt 0, which the read then does not find
abbrev pub insert_or_ignore :
    Option ReviewRequest → String → ReviewRequest → ℕ → Store → Option (ReviewRequest × Store)
insert_or_ignore (some r) operation request attempt store = some (r, store)
insert_or_ignore none operation request attempt store =
    if eqb attempt 0 then none else some (request, store ++ row_of operation attempt request ∷ [])

-- V5ReviewRequestStore.claim: the request retained, and the rows; `none` is its RuntimeError
unfoldable pub claim_request : String → ReviewRequest → ℕ → Store → Option (ReviewRequest × Store)
unfolding lookup
claim_request operation request attempt store =
    insert_or_ignore (lookup operation attempt store) operation request attempt store

pub record ReviewResult : Type 0 where
  pub status : String
  pub findings : List Finding
  pub lineage : List (Dict String)

-- `raised` is an exception that is no AgentProtocolError
pub data RunnerOutcome : Type 0 where
  returned : ReviewResult → RunnerOutcome
  agent_failed : AgentError → RunnerOutcome
  raised : RunnerOutcome

-- `unreachable` is a GitHubBoundaryError
pub data ClaimOutcome : Type 0 where
  read : CurrentClaim → ClaimOutcome
  unreachable : ClaimOutcome
  raised : ClaimOutcome

-- What the collaborators answer in one round. The four reads of `unstaged_custody` are those at the
-- start, after an unreachable claim, after a cancelled agent and after its result; `evidence` is
-- the comments and the run, or `none` if a read raises.
pub record ReviewReads : Type 0 where
  pub unstaged : Option String
  pub claim : ClaimOutcome
  pub unstaged_claim : Option String
  pub evidence : Option (List Comment × Option Run)
  pub runner : ReviewRequest → String → ℕ → RunnerOutcome
  pub unstaged_canceled : Option String
  pub unstaged_after : Option String

-- a call of the agent
pub record Ask : Type 0 where
  pub operation : String
  pub attempt : ℕ
  pub request : ReviewRequest

-- the answer, `none` if the gate raises; the calls of the agent; and the store after it
abbrev pub Reviewed : Type 0
Reviewed = Option RoundAnswer × List Ask × Store

abbrev pub expected : RoundOpen → CurrentClaim
expected work = record {
  phase = running;
  incarnation = work.incarnation;
  head = work.head;
  base = work.base;
  policy = work.policy;
}

-- `_category`; the values of AgentResultCategory are their own categories
abbrev pub category : AgentError → String
category e =
    if e.timed_out then "timed_out" else if e.canceled then "canceled" else elim e.result_category [
      | some c ↦ c
      | none ↦ elim e.cleanup_category [ some c ↦ "cleanup_unverified" | none ↦ "protocol" ]
    ]

abbrev pub is_none {ℓ} : {A : Type ℓ} → Option A → Bool
is_none none = true
is_none (some x) = false

-- the blocker defers the round
abbrev pub defer_or : Option String → Option RoundAnswer → Option RoundAnswer
defer_or (some blocker) next = some (deferred blocker)
defer_or none next = next

abbrev pub answer_result : ReviewResult → Option RoundAnswer
answer_result result =
    if result.status == "unable"
    then some (unable_to "unable")
    else if not (result.status == "clear" || result.status == "blocking")
    then none
    else some (reviewed result.findings result.lineage)

-- the answer to what the agent did
unfoldable pub answer_run : ReviewReads → RunnerOutcome → Option RoundAnswer
answer_run reads (agent_failed e) =
    if e.canceled && is_none e.cleanup_category
    then defer_or reads.unstaged_canceled (some (unable_to (category e)))
    else some (unable_to (category e))
answer_run reads RunnerOutcome.raised = none
answer_run reads (RunnerOutcome.returned result) =
    defer_or reads.unstaged_after (answer_result result)

module _ (gate : ReviewGate) (reads : ReviewReads) (work : RoundOpen) where
  abbrev pub asking : ReviewRequest → Ask
  asking request = record { operation = work.operation; attempt = work.attempt; request = request }

  unfoldable pub ask : ReviewRequest → Store → Reviewed
  unfolding answer_run
  ask request store = (
    answer_run reads (reads.runner request work.operation work.attempt),
    asking request ∷ [],
    store,
  )

  -- a request that is validated first
  unfoldable pub ask_valid : ReviewRequest → Store → Reviewed
  unfolding ask is_valid_request
  ask_valid request store =
      if is_valid_request gate work request then ask request store else (none, [], store)

  -- the request that is retained
  unfoldable pub ask_retained : Store → Option (ReviewRequest × Store) → Reviewed
  unfolding ask_valid
  ask_retained store none = (none, [], store)
  ask_retained store (some (request, after)) = ask_valid request after

  -- a request composed and frozen now
  unfoldable pub on_evidence : Store → Option (List Comment × Option Run) → Reviewed
  unfolding ask_retained claim_request compose_request
  on_evidence store none = (none, [], store)
  on_evidence store (some (comments, run)) =
      ask_retained store
        (claim_request work.operation (compose_request gate work comments run) work.attempt store)

  -- the request frozen before, or one that is composed
  unfoldable pub on_request : Option ReviewRequest → Store → Reviewed
  unfolding ask on_evidence
  on_request (some request) store = ask request store
  on_request none store = on_evidence store reads.evidence

  unfoldable pub on_claim : Option ReviewRequest → Store → ClaimOutcome → Reviewed
  unfolding on_request
  on_claim request store ClaimOutcome.raised = (none, [], store)
  on_claim request store unreachable = (defer_or reads.unstaged_claim none, [], store)
  on_claim request store (read observed) =
      if not (claim_eq observed (expected work))
      then (some (moved observed), [], store)
      else on_request request store

  unfoldable pub on_lookup : Option ReviewRequest → Store → Reviewed
  unfolding on_claim is_valid_request
  on_lookup none store = on_claim none store reads.claim
  on_lookup (some request) store =
      if is_valid_request gate work request
      then on_claim (some request) store reads.claim
      else (none, [], store)

  unfoldable pub on_unstaged : Store → Option String → Reviewed
  unfolding on_lookup lookup
  on_unstaged store (some blocker) = (some (deferred blocker), [], store)
  on_unstaged store none = on_lookup (lookup work.operation work.attempt store) store

-- V5ReviewGate.review_agent
unfoldable pub review_agent : ReviewGate → ReviewReads → RoundOpen → Store → Reviewed
unfolding on_unstaged
review_agent gate reads work store = on_unstaged gate reads work store reads.unstaged
