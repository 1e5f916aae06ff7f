-- ===== src/Rem/Custody.antt =====
-- The timer protocol: one command is outstanding at most, the one that the clock waits for.
use hamsterdan.Base.{String, false, ◌&&◌, List, [], ◌∷◌, ◌≡◌, arith, is_some, refl}
use hamsterdan.Colors.{
  ReminderTimer, ReminderClock, arming, cancelling, ReminderCommand, arm, cancel, TimerCommand,
  TimerCommandApplied, ReminderCycleStarted, ReminderCyclePaused, TimerDue, SnoozeFact, CloseFact,
  RemState, RecoverFact, Mail,
}
use hamsterdan.Rem.Commands.{settle, command_applied}
use hamsterdan.Rem.Folds.{cycle, pause, mature, fold_snooze, recover, end, nudge, recover_id}
use hamsterdan.Rem.Protocol.{
  RemSeat, live, ended, RemPlaces, newborn, NudgeAnswer, RemEvent, cycled, paused, acked, matured,
  snoozed, answered, recovered, closed, put_mail, take_one, step, final, fire_live, fire_ended,
  fold_answer,
}

abbrev pub IsArm : ReminderTimer → ReminderCommand → Type 0
IsArm t (arm u delay_s) = u ≡ t
IsArm t (cancel u reason) = ⊥

-- the outstanding commands are the one that the clock waits for
abbrev pub IsCommanded : ReminderClock → List TimerCommand → Type 0
IsCommanded (arming t op) (c ∷ []) = (c.operation ≡ op) × IsArm t c.command
IsCommanded (cancelling t op r) (c ∷ []) = (c.operation ≡ op) × (c.command ≡ cancel t r)
IsCommanded (arming t op) _ = ⊥
IsCommanded (cancelling t op r) _ = ⊥
IsCommanded _ cs = cs ≡ []

-- a loop that is closing wants no timer
abbrev pub ClosesIdle : RemState → Type 0
ClosesIdle st = (is_some st.closing && is_some st.desired_timer) ≡ false

abbrev pub SeatCommanded : RemSeat → List TimerCommand → Type 0
SeatCommanded (live st) cs = IsCommanded st.clock cs × ClosesIdle st
SeatCommanded (ended e) cs = cs ≡ []

newborn-IsCommanded :
    (subject : String) → SeatCommanded (newborn subject).seat (newborn subject).commands
newborn-IsCommanded subject = (refl, refl)

abbrev pub state_of : RemSeat → List TimerCommand → List String → RemPlaces
state_of seat commands requests = record { seat = seat; commands = commands; requests = requests }

abbrev Kept : RemPlaces → Type 0
Kept w = SeatCommanded w.seat w.commands

module _ (seat : RemSeat) (cs : List TimerCommand) (rs : List String) where
  abbrev Keeps : List Mail → Type 0
  Keeps ms = Kept (put_mail (state_of seat cs rs) ms)

  settle-Keeps : (st : RemState) → SeatCommanded (live st) cs → Keeps (settle st)
  unfolding settle
  settle-Keeps st h = ground arith

  cycle-Keeps :
      (f : ReminderCycleStarted) (st : RemState) → SeatCommanded (live st) cs → Keeps (cycle f st)
  unfolding cycle
  cycle-Keeps f st h = ground arith

  pause-Keeps :
      (f : ReminderCyclePaused) (st : RemState) → SeatCommanded (live st) cs → Keeps (pause f st)
  unfolding pause
  pause-Keeps f st h = ground arith

  nudge-Keeps :
      (t : ReminderTimer) (st : RemState)
      → SeatCommanded (live st) []
      → cs ≡ []
      → is_some st.closing ≡ false
      → Keeps (nudge st t)
  unfolding nudge
  nudge-Keeps t st h q p = ground arith

  mature-Keeps : (d : TimerDue) (st : RemState) → SeatCommanded (live st) cs → Keeps (mature d st)
  unfolding mature
  mature-Keeps d st h = ground arith

  snooze-Keeps :
      (f : SnoozeFact) (st : RemState) → SeatCommanded (live st) cs → Keeps (fold_snooze f st)
  unfolding fold_snooze
  snooze-Keeps f st h = ground arith

  answer-Keeps :
      (id : String) (a : NudgeAnswer) (st : RemState)
      → SeatCommanded (live st) cs
      → Keeps (fold_answer id a st)
  unfolding fold_answer settle
  answer-Keeps id a st h = ground arith

  recover-Keeps :
      (f : RecoverFact) (st : RemState) → SeatCommanded (live st) cs → Keeps (recover f st)
  unfolding recover recover_id
  recover-Keeps f st h = ground arith

  end-Keeps : (f : CloseFact) (st : RemState) → SeatCommanded (live st) cs → Keeps (end f st)
  unfolding end
  end-Keeps f st h = ground arith

  acked-Keeps :
      (a : TimerCommandApplied) (c : TimerCommand) (st : RemState)
      → SeatCommanded (live st) (c ∷ cs)
      → Keeps (command_applied a c st)
  unfolding command_applied settle
  acked-Keeps a c st h = ground arith

live_keeps :
    (cs : List TimerCommand) (rs : List String) (st : RemState) (e : RemEvent)
    → SeatCommanded (live st) cs
    → Kept (step (state_of (live st) cs rs) e)
unfolding step fire_live
live_keeps cs rs st (cycled f) h = cycle-Keeps (live st) cs rs f st h
live_keeps cs rs st (paused f) h = pause-Keeps (live st) cs rs f st h
live_keeps [] rs st (acked a) h = h
live_keeps (c ∷ cs) rs st (acked a) h = acked-Keeps (live st) cs rs a c st h
live_keeps cs rs st (matured d) h = mature-Keeps (live st) cs rs d st h
live_keeps cs rs st (snoozed f) h = snooze-Keeps (live st) cs rs f st h
live_keeps cs rs st (answered id a) h =
    ground (arith, answer-Keeps (live st) cs (take_one id rs) id a st h)
live_keeps cs rs st (recovered f) h = recover-Keeps (live st) cs rs f st h
live_keeps cs rs st (closed f) h = end-Keeps (live st) cs rs f st h

pub step-SeatCommanded :
    (seat : RemSeat) (cs : List TimerCommand) (rs : List String) (e : RemEvent)
    → SeatCommanded seat cs
    → Kept (step (state_of seat cs rs) e)
unfolding step fire_ended
step-SeatCommanded (live st) cs rs e h = live_keeps cs rs st e h
step-SeatCommanded (ended x) cs rs e h = ground arith

run_keeps : (w : RemPlaces) (es : List RemEvent) → Kept w → Kept (final w es)
unfolding final
run_keeps w [] h = h
run_keeps w (e ∷ es) h =
    run_keeps (step w e) es (step-SeatCommanded w.seat w.commands w.requests e h)

-- In every run of the reminder loop from its seed, whatever the host and the other loops do: while the
-- clock is arming or cancelling, exactly one timer command is outstanding, and it is the one that the
-- clock names, by operation, kind and timer; otherwise none is, in the terminal record too. And a
-- loop that is closing desires no timer.
pub run-SeatCommanded :
    (subject : String) (es : List RemEvent)
    → SeatCommanded (final (newborn subject) es).seat (final (newborn subject) es).commands
run-SeatCommanded subject es = run_keeps (newborn subject) es (newborn-IsCommanded subject)
