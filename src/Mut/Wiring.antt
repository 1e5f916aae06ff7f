-- ===== src/Mut/Wiring.antt =====
-- The output arcs of the transitions of src/hamsterdan/readiness/net_v5/mutation.py (`wire`).
use hamsterdan.Base.{String, List, [], ◌∷◌, ◌≡◌, arith}
use hamsterdan.Colors.{
  MutationRequest, MutState, MutEnded, Pushed, MovedM, DeclinedM, FaultM, RecoverFact, CloseFact,
  Mail, route,
}
use hamsterdan.Mut.{
  start, fold_pushed, fold_moved, fold_declined, fold_fault, recover, end, drain_recover, drain,
}

-- a transition with the tokens that it binds
pub data MutFiring : Type 0 where
  started : MutationRequest → MutState → MutFiring
  pushed : Pushed → MutFiring
  moved : MovedM → MutFiring
  declined : DeclinedM → MutFiring
  faulted : FaultM → MutFiring
  recovered : RecoverFact → MutState → MutFiring
  closed : CloseFact → MutState → MutFiring
  drained : MutationRequest → MutEnded → MutFiring
  recovery_drained : RecoverFact → MutEnded → MutFiring

-- its output arcs
abbrev pub arcs : MutFiring → List String
arcs (started x0 x1) =
    "mut.state" ∷ "mut.work" ∷ "esc.settled" ∷ "ready.mutation_pending_facts"
    ∷ "ready.mutation_settled_facts" ∷ "dash.facts" ∷ []
arcs (pushed x0) =
    "mut.state" ∷ "life.provisional" ∷ "esc.settled" ∷ "ready.mutation_settled_facts" ∷ "dash.facts"
    ∷ []
arcs (moved x0) = "mut.state" ∷ "esc.settled" ∷ "ready.mutation_settled_facts" ∷ "dash.facts" ∷ []
arcs (declined x0) =
    "mut.state" ∷ "esc.settled" ∷ "ready.mutation_settled_facts" ∷ "dash.facts" ∷ []
arcs (faulted x0) = "mut.state" ∷ "esc.settled" ∷ "ready.fault_raised_facts" ∷ "dash.facts" ∷ []
arcs (recovered x0 x1) =
    "mut.state" ∷ "mut.work" ∷ "ready.mutation_pending_facts" ∷ "ready.fault_cleared_facts"
    ∷ "dash.facts" ∷ []
arcs (closed x0 x1) = "mut.done" ∷ []
arcs (drained x0 x1) =
    "mut.done" ∷ "esc.settled" ∷ "ready.mutation_settled_facts" ∷ "dash.facts" ∷ []
arcs (recovery_drained x0 x1) = "mut.done" ∷ []

-- what its fold sends
abbrev pub sends : MutFiring → List Mail
sends (started x0 x1) = start x0 x1
sends (pushed x0) = fold_pushed x0
sends (moved x0) = fold_moved x0
sends (declined x0) = fold_declined x0
sends (faulted x0) = fold_fault x0
sends (recovered x0 x1) = recover x0 x1
sends (closed x0 x1) = end x0 x1
sends (drained x0 x1) = drain x0 x1
sends (recovery_drained x0 x1) = drain_recover x0 x1

pub sends-route : (f : MutFiring) → route (arcs f) (sends f) ≡ sends f
unfolding start fold_pushed fold_moved fold_declined fold_fault recover end drain_recover drain
sends-route (started x0 x1) = ground arith
sends-route (pushed x0) = ground arith
sends-route (moved x0) = ground arith
sends-route (declined x0) = ground arith
sends-route (faulted x0) = ground arith
sends-route (recovered x0 x1) = ground arith
sends-route (closed x0 x1) = ground arith
sends-route (drained x0 x1) = ground arith
sends-route (recovery_drained x0 x1) = ground arith
