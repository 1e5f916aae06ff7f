-- ===== src/Ready/Wiring.antt =====
-- The output arcs of the transitions of src/hamsterdan/readiness/net_v5/readiness.py (`wire`).
use hamsterdan.Base.{String, List, [], ◌∷◌, ◌≡◌, refl, arith}
use hamsterdan.Colors.{
  Snapshot, ALanded, ADeferred, AWake, ABlocked, AMoved, AFault, RecoverFact, CloseFact, ReadyEnded,
  Mail, route, sent, ready_state_facts, ready_checks_facts, ready_review_facts,
  ready_findings_facts, ready_human_facts, ready_mutation_pending_facts,
  ready_mutation_settled_facts, ready_fault_raised_facts, ready_fault_cleared_facts,
}
use hamsterdan.Ready.{
  announce_open, authorize, fold_applied, settle, fold_alanded, fold_adeferred, wake_deferred,
  fold_ablocked, fold_amoved, fold_afault, recover, recover_blocked, end, drain,
}
use hamsterdan.Ready.Protocol.{Fact, apply}

-- the fold of a fact mailed by a sibling loop
abbrev fold_fact : Snapshot → Fact → List Mail
fold_fact s f = fold_applied s (apply s f)

-- `_migrate_state` and the eight like it: a legacy envelope, revived as the fact of its transition
unfoldable pub migrate : Fact → List Mail
migrate (Fact.state f) = ready_state_facts f ∷ []
migrate (Fact.checks f) = ready_checks_facts f ∷ []
migrate (Fact.review f) = ready_review_facts f ∷ []
migrate (Fact.findings f) = ready_findings_facts f ∷ []
migrate (Fact.human f) = ready_human_facts f ∷ []
migrate (Fact.mutation_pending f) = ready_mutation_pending_facts f ∷ []
migrate (Fact.mutation_settled f) = ready_mutation_settled_facts f ∷ []
migrate (Fact.fault_raised f) = ready_fault_raised_facts f ∷ []
migrate (Fact.fault_cleared f) = ready_fault_cleared_facts f ∷ []

-- the output arc of the migration that revives this kind of fact
abbrev pub migration_arc : Fact → String
migration_arc (Fact.state f) = "ready.state_facts"
migration_arc (Fact.checks f) = "ready.checks_facts"
migration_arc (Fact.review f) = "ready.review_facts"
migration_arc (Fact.findings f) = "ready.findings_facts"
migration_arc (Fact.human f) = "ready.human_facts"
migration_arc (Fact.mutation_pending f) = "ready.mutation_pending_facts"
migration_arc (Fact.mutation_settled f) = "ready.mutation_settled_facts"
migration_arc (Fact.fault_raised f) = "ready.fault_raised_facts"
migration_arc (Fact.fault_cleared f) = "ready.fault_cleared_facts"

-- a transition with the tokens that it binds
pub data ReadyFiring : Type 0 where
  observed : Snapshot → Fact → ReadyFiring
  authorized : Snapshot → ReadyFiring
  landed : ALanded → Snapshot → ReadyFiring
  deferred : ADeferred → Snapshot → ReadyFiring
  woken : ADeferred → AWake → Snapshot → ReadyFiring
  blocked : ABlocked → Snapshot → ReadyFiring
  moved : AMoved → Snapshot → ReadyFiring
  faulted : AFault → Snapshot → ReadyFiring
  recovered : RecoverFact → Snapshot → ReadyFiring
  closed : CloseFact → Snapshot → ReadyFiring
  drained : ReadyEnded → ReadyFiring
  migrated : Fact → ReadyFiring

-- its output arcs
abbrev pub arcs : ReadyFiring → List String
arcs (observed x0 x1) = "ready.snap" ∷ "ready.candidate" ∷ []
arcs (authorized x0) = "ready.snap" ∷ "ready.announce_req" ∷ []
arcs (landed x0 x1) = "ready.snap" ∷ "dash.facts" ∷ "ready.done" ∷ "ready.candidate" ∷ []
arcs (deferred x0 x1) = "ready.deferred" ∷ "ready.snap" ∷ []
arcs (woken x0 x1 x2) = "ready.snap" ∷ "ready.done" ∷ "ready.announce_req" ∷ []
arcs (blocked x0 x1) = "ready.snap" ∷ "ready.done" ∷ []
arcs (moved x0 x1) = "ready.snap" ∷ "ready.done" ∷ "ready.candidate" ∷ []
arcs (faulted x0 x1) = "ready.snap" ∷ "dash.facts" ∷ "ready.done" ∷ "ready.candidate" ∷ []
arcs (recovered x0 x1) = "ready.snap" ∷ "ready.announce_req" ∷ []
arcs (closed x0 x1) = "ready.snap" ∷ "ready.done" ∷ []
arcs (drained x0) = "ready.done" ∷ []
arcs (migrated x0) = migration_arc x0 ∷ []

-- what its fold sends
abbrev pub sends : ReadyFiring → List Mail
sends (observed x0 x1) = fold_fact x0 x1
sends (authorized x0) = authorize x0
sends (landed x0 x1) = fold_alanded x0 x1
sends (deferred x0 x1) = sent (fold_adeferred x0 x1)
sends (woken x0 x1 x2) = sent (wake_deferred x0 x1 x2)
sends (blocked x0 x1) = fold_ablocked x0 x1
sends (moved x0 x1) = fold_amoved x0 x1
sends (faulted x0 x1) = fold_afault x0 x1
sends (recovered x0 x1) = recover x0 x1
sends (closed x0 x1) = end x0 x1
sends (drained x0) = drain x0
sends (migrated x0) = migrate x0

migrate-route : (f : Fact) → route (migration_arc f ∷ []) (migrate f) ≡ migrate f
unfolding migrate
migrate-route (Fact.state f) = refl
migrate-route (Fact.checks f) = refl
migrate-route (Fact.review f) = refl
migrate-route (Fact.findings f) = refl
migrate-route (Fact.human f) = refl
migrate-route (Fact.mutation_pending f) = refl
migrate-route (Fact.mutation_settled f) = refl
migrate-route (Fact.fault_raised f) = refl
migrate-route (Fact.fault_cleared f) = refl

pub sends-route : (f : ReadyFiring) → route (arcs f) (sends f) ≡ sends f
unfolding announce_open authorize fold_applied settle fold_alanded fold_adeferred wake_deferred
    fold_ablocked fold_amoved fold_afault recover recover_blocked end drain
sends-route (observed x0 x1) = ground arith
sends-route (authorized x0) = ground arith
sends-route (landed x0 x1) = ground arith
sends-route (deferred x0 x1) = ground arith
sends-route (woken x0 x1 x2) = ground arith
sends-route (blocked x0 x1) = ground arith
sends-route (moved x0 x1) = ground arith
sends-route (faulted x0 x1) = ground arith
sends-route (recovered x0 x1) = ground arith
sends-route (closed x0 x1) = ground arith
sends-route (drained x0) = ground arith
sends-route (migrated x0) = migrate-route x0
