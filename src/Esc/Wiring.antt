-- ===== src/Esc/Wiring.antt =====
-- The output arcs of the transitions of src/hamsterdan/readiness/net_v5/esc.py (`wire`).
use hamsterdan.Base.{String, List, [], ◌∷◌, ◌≡◌, arith}
use hamsterdan.Colors.{
  ChecksFailure, Ladder, LadderEnded, RerunLanded, RerunMoved, RerunFault, MutationSettled,
  RecoverFact, CloseFact, Mail, route, sent,
}
use hamsterdan.Esc.{
  decide, decide_faulted, decide_repair, decide_rung, recover, recover_found, fold_rerun_landed,
  fold_rerun_moved, fold_rerun_fault, fold_settled, settle_entry, settle_found, end, drain_recover,
}

-- a transition with the tokens that it binds
pub data EscFiring : Type 0 where
  decided : ChecksFailure → Ladder → EscFiring
  landed : RerunLanded → EscFiring
  moved : RerunMoved → EscFiring
  faulted : RerunFault → EscFiring
  settled : MutationSettled → Ladder → EscFiring
  recovered : RecoverFact → Ladder → EscFiring
  closed : CloseFact → Ladder → EscFiring
  drained : RecoverFact → LadderEnded → EscFiring

-- its output arcs
abbrev pub arcs : EscFiring → List String
arcs (decided x0 x1) = "esc.ladder" ∷ "esc.rerun_req" ∷ "mut.requests" ∷ "dash.facts" ∷ []
arcs (landed x0) = "esc.ladder" ∷ "esc.failures" ∷ "ready.fault_cleared_facts" ∷ "dash.facts" ∷ []
arcs (moved x0) = "esc.ladder" ∷ "ci.echo" ∷ "ready.fault_cleared_facts" ∷ "dash.facts" ∷ []
arcs (faulted x0) = "esc.ladder" ∷ "ready.fault_raised_facts" ∷ "dash.facts" ∷ []
arcs (settled x0 x1) = "esc.ladder" ∷ "ci.echo" ∷ "esc.done" ∷ []
arcs (recovered x0 x1) = "esc.ladder" ∷ "esc.rerun_req" ∷ []
arcs (closed x0 x1) = "esc.done" ∷ "esc.ladder" ∷ []
arcs (drained x0 x1) = "esc.done" ∷ []

-- what its fold sends
abbrev pub sends : EscFiring → List Mail
sends (decided x0 x1) = sent (decide x0 x1)
sends (landed x0) = fold_rerun_landed x0
sends (moved x0) = fold_rerun_moved x0
sends (faulted x0) = fold_rerun_fault x0
sends (settled x0 x1) = fold_settled x0 x1
sends (recovered x0 x1) = recover x0 x1
sends (closed x0 x1) = end x0 x1
sends (drained x0 x1) = drain_recover x0 x1

pub sends-route : (f : EscFiring) → route (arcs f) (sends f) ≡ sends f
unfolding decide decide_faulted decide_repair decide_rung recover recover_found fold_rerun_landed
    fold_rerun_moved fold_rerun_fault fold_settled settle_entry settle_found end drain_recover
sends-route (decided x0 x1) = ground arith
sends-route (landed x0) = ground arith
sends-route (moved x0) = ground arith
sends-route (faulted x0) = ground arith
sends-route (settled x0 x1) = ground arith
sends-route (recovered x0 x1) = ground arith
sends-route (closed x0 x1) = ground arith
sends-route (drained x0 x1) = ground arith
