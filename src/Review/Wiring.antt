-- ===== src/Review/Wiring.antt =====
-- The output arcs of the transitions of src/hamsterdan/readiness/net_v5/review.py (`wire`).
use hamsterdan.Base.{ℕ, String, List, [], ◌∷◌, ◌≡◌, arith}
use hamsterdan.Colors.{
  HeadWork, ReviewMemory, RoundDeferred, PublicationDeferred, RoundWake, RoundMoved, AgentReview,
  RoundUnable, ReviewLanded, ReviewMoved, ReviewBlocked, ReviewFault, EmptyReview, RecoverFact,
  DismissFact, CloseFact, ReviewEnded, Mail, route, sent,
}
use hamsterdan.Review.Folds.{
  start_refreshed, start, judge, unable, round_moved, wake_deferred, wake_publication,
}
use hamsterdan.Review.Settle.{
  fold_landed, fold_moved, fold_blocked, fold_fault, fold_empty, recover_pub, recover, dismiss, end,
  end_deferred, end_publication_deferred, drain,
}

-- a transition with the tokens that it binds
pub data ReviewFiring : Type 0 where
  started : (String → ℕ → String) → HeadWork → ReviewMemory → ReviewFiring
  round_woken : RoundDeferred → RoundWake → ReviewFiring
  publication_woken : PublicationDeferred → RoundWake → ReviewFiring
  round_stopped : RoundMoved → ReviewFiring
  judged : (String → ℕ → String) → AgentReview → ReviewFiring
  unable_to : RoundUnable → ReviewFiring
  landed : ReviewLanded → ReviewFiring
  moved : ReviewMoved → ReviewFiring
  blocked : ReviewBlocked → ReviewFiring
  faulted : ReviewFault → ReviewFiring
  empty : EmptyReview → ReviewFiring
  recovered : RecoverFact → ReviewMemory → ReviewFiring
  dismissed : DismissFact → ReviewMemory → ReviewFiring
  closed : CloseFact → ReviewMemory → ReviewFiring
  deferred_closed : CloseFact → RoundDeferred → ReviewFiring
  publication_closed : CloseFact → PublicationDeferred → ReviewFiring
  drained : ReviewEnded → ReviewFiring

-- its output arcs
abbrev pub arcs : ReviewFiring → List String
arcs (started x0 x1 x2) = "review.memory" ∷ "review.round" ∷ "review.publishable" ∷ []
arcs (round_woken x0 x1) = "review.round" ∷ []
arcs (publication_woken x0 x1) = "review.publishable" ∷ []
arcs (round_stopped x0) = "review.memory" ∷ []
arcs (judged x0 x1) = "review.publishable" ∷ "review.empty" ∷ []
arcs (unable_to x0) = "review.memory" ∷ "ready.review_facts" ∷ "dash.facts" ∷ []
arcs (landed x0) =
    "review.memory" ∷ "ready.findings_facts" ∷ "ready.review_facts" ∷ "ready.fault_cleared_facts"
    ∷ "dash.facts" ∷ []
arcs (moved x0) = "review.memory" ∷ "ready.fault_cleared_facts" ∷ "dash.facts" ∷ []
arcs (blocked x0) =
    "review.memory" ∷ "ready.findings_facts" ∷ "ready.review_facts" ∷ "ready.fault_cleared_facts"
    ∷ "dash.facts" ∷ []
arcs (faulted x0) = "review.memory" ∷ "ready.fault_raised_facts" ∷ "dash.facts" ∷ []
arcs (empty x0) =
    "review.memory" ∷ "ready.findings_facts" ∷ "ready.review_facts" ∷ "dash.facts" ∷ []
arcs (recovered x0 x1) = "review.memory" ∷ "review.publishable" ∷ []
arcs (dismissed x0 x1) =
    "review.memory" ∷ "ready.findings_facts" ∷ "ready.review_facts" ∷ "ready.fault_cleared_facts"
    ∷ "dash.facts" ∷ []
arcs (closed x0 x1) = "review.done" ∷ []
arcs (deferred_closed x0 x1) = "review.done" ∷ []
arcs (publication_closed x0 x1) = "review.done" ∷ []
arcs (drained x0) = "review.done" ∷ []

-- what its fold sends
abbrev pub sends : ReviewFiring → List Mail
sends (started x0 x1 x2) = sent (start x0 x1 x2)
sends (round_woken x0 x1) = sent (wake_deferred x0 x1)
sends (publication_woken x0 x1) = sent (wake_publication x0 x1)
sends (round_stopped x0) = round_moved x0
sends (judged x0 x1) = judge x0 x1
sends (unable_to x0) = unable x0
sends (landed x0) = fold_landed x0
sends (moved x0) = fold_moved x0
sends (blocked x0) = fold_blocked x0
sends (faulted x0) = fold_fault x0
sends (empty x0) = fold_empty x0
sends (recovered x0 x1) = recover x0 x1
sends (dismissed x0 x1) = dismiss x0 x1
sends (closed x0 x1) = end x0 x1
sends (deferred_closed x0 x1) = end_deferred x0 x1
sends (publication_closed x0 x1) = end_publication_deferred x0 x1
sends (drained x0) = drain x0

pub sends-route : (f : ReviewFiring) → route (arcs f) (sends f) ≡ sends f
unfolding start start_refreshed judge unable round_moved wake_deferred wake_publication fold_landed
    fold_moved fold_blocked fold_fault fold_empty recover recover_pub dismiss end end_deferred
    end_publication_deferred drain
sends-route (started x0 x1 x2) = ground arith
sends-route (round_woken x0 x1) = ground arith
sends-route (publication_woken x0 x1) = ground arith
sends-route (round_stopped x0) = ground arith
sends-route (judged x0 x1) = ground arith
sends-route (unable_to x0) = ground arith
sends-route (landed x0) = ground arith
sends-route (moved x0) = ground arith
sends-route (blocked x0) = ground arith
sends-route (faulted x0) = ground arith
sends-route (empty x0) = ground arith
sends-route (recovered x0 x1) = ground arith
sends-route (dismissed x0 x1) = ground arith
sends-route (closed x0 x1) = ground arith
sends-route (deferred_closed x0 x1) = ground arith
sends-route (publication_closed x0 x1) = ground arith
sends-route (drained x0) = ground arith
