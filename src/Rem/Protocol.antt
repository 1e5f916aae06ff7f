-- ===== src/Rem/Protocol.antt =====
-- The places of the reminder loop: the baton or the terminal record, the timer commands that wait for
-- the host, and the nudges that the reminder gate has in hand. The host acknowledges a command; the
-- gate answers a nudge with its timer id.
use hamsterdan.Base.{String, Bool, true, false, List, [], ◌∷◌, ◌==◌, if◌then◌else◌}
use hamsterdan.Colors.{
  TimerCommand, TimerCommandApplied, TimerDue, RemState, RemEnded, ReminderCycleStarted,
  ReminderCyclePaused, SnoozeFact, RecoverFact, CloseFact, Mail, rem_state, rem_commands,
  rem_pub_req, rem_done,
}
use hamsterdan.Rem.Commands.{command_applied}
use hamsterdan.Rem.Folds.{
  seed, cycle, pause, mature, fold_snooze, fold_landed, fold_blocked, fold_fault, recover, end,
  drain_timer, drain,
}

pub data RemSeat : Type 0 where
  live : RemState → RemSeat
  ended : RemEnded → RemSeat

pub record RemPlaces : Type 0 where
  pub seat : RemSeat
  pub commands : List TimerCommand
  pub requests : List String

abbrev pub newborn : String → RemPlaces
newborn subject = record { seat = live (seed subject); commands = []; requests = [] }

-- RemLanded, RemBlocked, RemFault
pub data NudgeAnswer : Type 0 where
  landed blocked : NudgeAnswer
  faulted : String → NudgeAnswer

pub data RemEvent : Type 0 where
  cycled : ReminderCycleStarted → RemEvent
  paused : ReminderCyclePaused → RemEvent
  acked : TimerCommandApplied → RemEvent
  matured : TimerDue → RemEvent
  snoozed : SnoozeFact → RemEvent
  answered : String → NudgeAnswer → RemEvent
  recovered : RecoverFact → RemEvent
  closed : CloseFact → RemEvent

-- the nudge's fold
unfoldable pub fold_answer : String → NudgeAnswer → RemState → List Mail
unfolding fold_landed fold_blocked fold_fault
fold_answer id landed st = fold_landed id st
fold_answer id blocked st = fold_blocked id st
fold_answer id (faulted reason) st = fold_fault id reason st

abbrev pub is_member : String → List String → Bool
is_member id [] = false
is_member id (j ∷ js) = if j == id then true else is_member id js

-- one token taken from a place
abbrev pub take_one : String → List String → List String
take_one id [] = []
take_one id (j ∷ js) = if j == id then js else j ∷ take_one id js

abbrev pub Fired : Type 0
Fired = RemPlaces × List Mail

-- An event whose other tokens are not there waits.
unfoldable pub fire_live : RemPlaces → RemState → RemEvent → Fired
unfolding command_applied cycle pause mature fold_snooze recover end fold_answer
fire_live w st (cycled f) = (w, cycle f st)
fire_live w st (paused f) = (w, pause f st)
fire_live w st (acked a) = elim w.commands [
  | [] ↦ (w, [])
  | c ∷ rest ↦ (record w { commands = rest }, command_applied a c st)
]
fire_live w st (matured d) = (w, mature d st)
fire_live w st (snoozed f) = (w, fold_snooze f st)
fire_live w st (answered id a) =
    if is_member id w.requests
    then (record w { requests = take_one id w.requests }, fold_answer id a st)
    else (w, [])
fire_live w st (recovered f) = (w, recover f st)
fire_live w st (closed c) = (w, end c st)

unfoldable pub fire_ended : RemPlaces → RemEnded → RemEvent → Fired
unfolding drain_timer drain
fire_ended w e (matured d) = (w, drain_timer d e)
fire_ended w e (answered id a) = (w, [])
fire_ended w e (closed c) = (w, [])
fire_ended w e _ = (w, drain e)

unfoldable pub fire_seat : RemPlaces → RemSeat → RemEvent → Fired
unfolding fire_live fire_ended
fire_seat w (live st) e = fire_live w st e
fire_seat w (ended x) e = fire_ended w x e

unfoldable pub fire : RemPlaces → RemEvent → Fired
unfolding fire_seat
fire w e = fire_seat w w.seat e

-- the tokens of a transition, put on their places
abbrev pub put_mail : RemPlaces → List Mail → RemPlaces
put_mail w [] = w
put_mail w (rem_state s ∷ ms) = put_mail (record w { seat = live s }) ms
put_mail w (rem_done e ∷ ms) = put_mail (record w { seat = ended e }) ms
put_mail w (rem_commands c ∷ ms) = put_mail (record w { commands = c ∷ w.commands }) ms
put_mail w (rem_pub_req r ∷ ms) = put_mail (record w { requests = r.timer_id ∷ w.requests }) ms
put_mail w (_ ∷ ms) = put_mail w ms

-- the places after an event
unfoldable pub step : RemPlaces → RemEvent → RemPlaces
unfolding fire
step w e = let p = fire w e in put_mail p.0 p.1

-- the places after a run
unfoldable pub final : RemPlaces → List RemEvent → RemPlaces
final w [] = w
final w (e ∷ es) = final (step w e) es
