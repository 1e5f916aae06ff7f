-- ===== src/Life/Wiring.antt =====
-- The output arcs of the lifecycle transitions (`wire` of
-- src/hamsterdan/readiness/net_v5/life.py).
use hamsterdan.Base.{String, List, [], ◌∷◌, ◌≡◌, arith}
use hamsterdan.Colors.{LifeState, route}
use hamsterdan.Life.{
  admitted_state_outputs, admit_same, admit_other, admit_head, admit_draft, admit_ready,
  admit_close, admit_comment, admit_human, admit_runs, note_provisional, LifeEvent, head_seen,
  draft_seen, ready_seen, close_seen, comment_seen, human_seen, run_seen, provisional_head, fold,
}

abbrev admitted_arcs : List String
admitted_arcs =
    "life.state" ∷ "review.heads" ∷ "ci.heads" ∷ "ready.state_facts" ∷ "dash.facts" ∷ "rem.cycles"
    ∷ []

-- the output arcs of the transition that a token is bound to
abbrev pub arcs : LifeEvent → List String
arcs (head_seen e) = admitted_arcs
arcs draft_seen = "life.state" ∷ "ready.state_facts" ∷ "dash.facts" ∷ "rem.pauses" ∷ []
arcs ready_seen = admitted_arcs
arcs (close_seen e) =
    "life.state" ∷ "review.closed" ∷ "ci.closed" ∷ "esc.closed" ∷ "mut.closed" ∷ "dash.closed"
    ∷ "rem.closed" ∷ "ready.closed" ∷ []
arcs (comment_seen e) = "life.state" ∷ "conv.intents" ∷ []
arcs (human_seen e) = "life.state" ∷ "ready.human_facts" ∷ "dash.facts" ∷ []
arcs (run_seen e) = "life.state" ∷ "ci.runs" ∷ []
arcs (provisional_head e) = "life.state" ∷ []

pub fold-route : (e : LifeEvent) (s : LifeState) → route (arcs e) (fold e s) ≡ fold e s
unfolding fold admitted_state_outputs admit_head admit_same admit_other admit_draft admit_ready
    admit_close admit_comment admit_human admit_runs note_provisional
fold-route (head_seen e) s = ground arith
fold-route draft_seen s = ground arith
fold-route ready_seen s = ground arith
fold-route (close_seen e) s = ground arith
fold-route (comment_seen e) s = ground arith
fold-route (human_seen e) s = ground arith
fold-route (run_seen e) s = ground arith
fold-route (provisional_head e) s = ground arith
