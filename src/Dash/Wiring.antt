-- ===== src/Dash/Wiring.antt =====
-- The output arcs of the transitions of src/hamsterdan/readiness/net_v5/dashboard.py (`wire`).
use hamsterdan.Base.{String, List, [], ◌∷◌, ◌≡◌, arith}
use hamsterdan.Colors.{
  DashFact, DashMemory, DashLanded, DashDeferred, DashBlocked, DashFault, DashHeal, DashEnded,
  RecoverFact, CloseFact, Mail, route,
}
use hamsterdan.Dash.{
  Repr, fold, fold_landed, fold_deferred, selfheal, fold_blocked, fold_fault, recover, end,
  drain_fact, drain_recover, drain_heal,
}

-- a transition with the tokens that it binds
pub data DashFiring : Type 0 where
  noted : Repr → DashFact → DashMemory → DashFiring
  landed : DashLanded → DashFiring
  healed : DashHeal → DashMemory → DashFiring
  deferred : DashDeferred → DashFiring
  blocked : DashBlocked → DashFiring
  faulted : DashFault → DashFiring
  recovered : RecoverFact → DashMemory → DashFiring
  closed : CloseFact → DashMemory → DashFiring
  fact_drained : Repr → DashFact → DashEnded → DashFiring
  recovery_drained : RecoverFact → DashEnded → DashFiring
  heal_drained : DashHeal → DashEnded → DashFiring

-- its output arcs
abbrev pub arcs : DashFiring → List String
arcs (noted x0 x1 x2) = "dash.memory" ∷ "dash.pub_req" ∷ []
arcs (landed x0) = "dash.memory" ∷ "dash.heal" ∷ "startup.published" ∷ []
arcs (healed x0 x1) = "dash.memory" ∷ "dash.pub_req" ∷ []
arcs (deferred x0) = "dash.memory" ∷ []
arcs (blocked x0) = "dash.memory" ∷ []
arcs (faulted x0) = "dash.memory" ∷ []
arcs (recovered x0 x1) = "dash.memory" ∷ "dash.pub_req" ∷ []
arcs (closed x0 x1) = "dash.done" ∷ []
arcs (fact_drained x0 x1 x2) = "dash.done" ∷ []
arcs (recovery_drained x0 x1) = "dash.done" ∷ []
arcs (heal_drained x0 x1) = "dash.done" ∷ []

-- what its fold sends
abbrev pub sends : DashFiring → List Mail
sends (noted x0 x1 x2) = fold x0 x1 x2
sends (landed x0) = fold_landed x0
sends (healed x0 x1) = selfheal x0 x1
sends (deferred x0) = fold_deferred x0
sends (blocked x0) = fold_blocked x0
sends (faulted x0) = fold_fault x0
sends (recovered x0 x1) = recover x0 x1
sends (closed x0 x1) = end x0 x1
sends (fact_drained x0 x1 x2) = drain_fact x0 x1 x2
sends (recovery_drained x0 x1) = drain_recover x0 x1
sends (heal_drained x0 x1) = drain_heal x0 x1

pub sends-route : (f : DashFiring) → route (arcs f) (sends f) ≡ sends f
unfolding fold fold_landed fold_deferred selfheal fold_blocked fold_fault recover end drain_fact
    drain_recover drain_heal
sends-route (noted x0 x1 x2) = ground arith
sends-route (landed x0) = ground arith
sends-route (healed x0 x1) = ground arith
sends-route (deferred x0) = ground arith
sends-route (blocked x0) = ground arith
sends-route (faulted x0) = ground arith
sends-route (recovered x0 x1) = ground arith
sends-route (closed x0 x1) = ground arith
sends-route (fact_drained x0 x1 x2) = ground arith
sends-route (recovery_drained x0 x1) = ground arith
sends-route (heal_drained x0 x1) = ground arith
