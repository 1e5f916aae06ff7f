-- ===== src/Rem/Wiring.antt =====
-- The output arcs of the transitions of src/hamsterdan/readiness/net_v5/reminders.py (`wire`).
use hamsterdan.Base.{String, List, [], ◌∷◌, ◌≡◌, arith}
use hamsterdan.Colors.{
  ReminderCycleStarted, ReminderCyclePaused, TimerCommandApplied, TimerCommand, TimerDue,
  SnoozeFact, RecoverFact, CloseFact, RemState, RemEnded, Mail, route,
}
use hamsterdan.Rem.Commands.{settle, command_applied, fold_result, fold_armed, fold_cancelled}
use hamsterdan.Rem.Folds.{
  cycle, pause, mature, nudge, fold_snooze, wake, fold_landed, fold_blocked, fold_fault, recover,
  end, drain_timer, drain,
}

-- a transition with the tokens that it binds
pub data RemFiring : Type 0 where
  cycled : ReminderCycleStarted → RemState → RemFiring
  paused : ReminderCyclePaused → RemState → RemFiring
  acked : TimerCommandApplied → TimerCommand → RemState → RemFiring
  matured : TimerDue → RemState → RemFiring
  snoozed : SnoozeFact → RemState → RemFiring
  landed : String → RemState → RemFiring
  blocked : String → RemState → RemFiring
  faulted : String → String → RemState → RemFiring
  recovered : RecoverFact → RemState → RemFiring
  closed : CloseFact → RemState → RemFiring
  timer_drained : TimerDue → RemEnded → RemFiring
  drained : RemEnded → RemFiring

-- its output arcs
abbrev pub arcs : RemFiring → List String
arcs (cycled x0 x1) = "rem.state" ∷ "rem.commands" ∷ []
arcs (paused x0 x1) = "rem.state" ∷ "rem.commands" ∷ "rem.done" ∷ []
arcs (acked x0 x1 x2) = "rem.state" ∷ "rem.commands" ∷ "rem.done" ∷ []
arcs (matured x0 x1) = "rem.state" ∷ "rem.pub_req" ∷ "rem.commands" ∷ []
arcs (snoozed x0 x1) = "rem.state" ∷ "rem.pub_req" ∷ "rem.commands" ∷ []
arcs (landed x0 x1) = "rem.state" ∷ "dash.facts" ∷ "rem.done" ∷ []
arcs (blocked x0 x1) = "rem.state" ∷ "rem.done" ∷ []
arcs (faulted x0 x1 x2) = "rem.state" ∷ "dash.facts" ∷ "rem.done" ∷ []
arcs (recovered x0 x1) = "rem.state" ∷ "rem.pub_req" ∷ []
arcs (closed x0 x1) = "rem.state" ∷ "rem.commands" ∷ "rem.done" ∷ []
arcs (timer_drained x0 x1) = "rem.done" ∷ []
arcs (drained x0) = "rem.done" ∷ []

-- what its fold sends
abbrev pub sends : RemFiring → List Mail
sends (cycled x0 x1) = cycle x0 x1
sends (paused x0 x1) = pause x0 x1
sends (acked x0 x1 x2) = command_applied x0 x1 x2
sends (matured x0 x1) = mature x0 x1
sends (snoozed x0 x1) = fold_snooze x0 x1
sends (landed x0 x1) = fold_landed x0 x1
sends (blocked x0 x1) = fold_blocked x0 x1
sends (faulted x0 x1 x2) = fold_fault x0 x1 x2
sends (recovered x0 x1) = recover x0 x1
sends (closed x0 x1) = end x0 x1
sends (timer_drained x0 x1) = drain_timer x0 x1
sends (drained x0) = drain x0

pub sends-route : (f : RemFiring) → route (arcs f) (sends f) ≡ sends f
unfolding settle command_applied fold_result fold_armed fold_cancelled cycle pause mature nudge
    fold_snooze wake fold_landed fold_blocked fold_fault recover end drain_timer drain
sends-route (cycled x0 x1) = ground arith
sends-route (paused x0 x1) = ground arith
sends-route (acked x0 x1 x2) = ground arith
sends-route (matured x0 x1) = ground arith
sends-route (snoozed x0 x1) = ground arith
sends-route (landed x0 x1) = ground arith
sends-route (blocked x0 x1) = ground arith
sends-route (faulted x0 x1 x2) = ground arith
sends-route (recovered x0 x1) = ground arith
sends-route (closed x0 x1) = ground arith
sends-route (timer_drained x0 x1) = ground arith
sends-route (drained x0) = ground arith
