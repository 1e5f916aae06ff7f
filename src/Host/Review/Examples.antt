-- ===== src/Host/Review/Examples.antt =====
-- A round whose agent is asked, fails to report, and is asked again although the comments have changed.
use hamsterdan.Base.{none, some, List, [], ◌∷◌, ◌≡◌, refl, All}
use hamsterdan.Colors.{HeadRelation, RoundOpen}
use hamsterdan.Review.Folds.{round_open}
use hamsterdan.Review.Settle.{seed}
use hamsterdan.Host.Review.Request.{
  Comment, ReviewGate, clip, last_of, clipped, compose_request, dict_eq, finding_eq,
  is_valid_request,
}
use hamsterdan.Host.Review.{
  RunnerOutcome, read, ReviewReads, expected, asking, review_agent, lookup, ask, ask_valid,
  answer_run, claim_request, ask_retained, on_evidence, on_request, on_claim, on_lookup,
  on_unstaged,
}
use hamsterdan.Host.Review.Frozen.{IsStored, rounds, agent_asked_once}
use hamsterdan.Host.Review.Asked.{Asked, review-Asked}

abbrev gate : ReviewGate
gate = record { repository = "acme/app"; pull_request = 7 }

abbrev round : RoundOpen
round =
    round_open
      (record {
        incarnation = 1;
        head = "c1";
        base = "b1";
        policy = "p1";
        relation = HeadRelation.new;
        lineage = "";
      })
      (seed "acme/app#7") "review:acme/app#7:c1:i1"

abbrev remark : Comment
remark = record { id = some 4; url = ""; body = "please look"; author = "ann" }

-- an answer of the collaborators with the given comments
abbrev answers : List Comment → RunnerOutcome → ReviewReads
answers comments outcome = record {
  unstaged = none;
  claim = read (expected round);
  unstaged_claim = none;
  evidence = some (comments, none);
  runner = λ r op n. outcome;
  unstaged_canceled = none;
  unstaged_after = none;
}

abbrev clears : RunnerOutcome
clears = RunnerOutcome.returned (record { status = "clear"; findings = []; lineage = [] })

abbrev two_rounds : List (ReviewReads × RoundOpen)
two_rounds = (answers [] RunnerOutcome.raised, round) ∷ (answers (remark ∷ []) clears, round) ∷ []

-- the second call carries the request of the first, without the comment
asks_again :
    (rounds gate two_rounds []).0
    ≡ asking gate (answers [] clears) round (compose_request gate round [] none)
      ∷ asking gate (answers [] clears) round (compose_request gate round [] none)
      ∷ []
unfolding rounds review_agent on_unstaged on_lookup on_claim on_request on_evidence ask_retained ask
    ask_valid lookup claim_request is_valid_request dict_eq finding_eq compose_request clipped
    last_of clip answer_run
asks_again = refl

agent_asked_once_example :
    All (IsStored (rounds gate two_rounds []).1) (rounds gate two_rounds []).0
agent_asked_once_example = agent_asked_once gate two_rounds []

review-Asked_example :
    Asked gate
      (answers (remark ∷ []) clears)
      round
      (review_agent gate (answers (remark ∷ []) clears) round [])
review-Asked_example = review-Asked gate (answers (remark ∷ []) clears) round []
