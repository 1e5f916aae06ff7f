-- ===== src/Rem/Nudges.antt =====
-- A nudge is in the gate's hands once at most, and `pending` says so.
use hamsterdan.Base.{
  ℕ, ◌+◌, ◌<◌, String, true, false, ◌&&◌, Option, none, some, List, [], ◌∷◌, ◌++◌, ◌≡◌, ◌==◌,
  eq_iff, arith, is_some, one_if, get, get-put, get-without, refl, strip,
}
use hamsterdan.Colors.{
  ReminderTimer, ReminderClock, overdue, TimerCommand, TimerCommandApplied, TimerDue, RemState,
  ReminderCycleStarted, ReminderCyclePaused, SnoozeFact, RecoverFact, CloseFact, Mail,
}
use hamsterdan.Rem.Commands.{settle, command_applied}
use hamsterdan.Rem.Folds.{cycle, pause, mature, fold_snooze, recover, recover_id, end, nudge, wake}
use hamsterdan.Rem.Protocol.{
  RemSeat, live, ended, RemPlaces, newborn, NudgeAnswer, landed, blocked, faulted, RemEvent, cycled,
  paused, acked, matured, snoozed, answered, recovered, closed, put_mail, take_one, is_member, step,
  final, fire_live, fire_ended, fold_answer,
}
use hamsterdan.Rem.Custody.{state_of}

-- how often the gate has the nudge
abbrev pub count : String → List String → ℕ
count id [] = 0
count id (j ∷ js) = one_if (j == id) + count id js

count-is_member : (id : String) (rs : List String) → 0 < count id rs → is_member id rs ≡ true
count-is_member id [] h = ground arith
count-is_member id (j ∷ js) h = ground (arith, count-is_member id js)

count-take_one :
    (id j : String) (rs : List String)
    → is_member j rs ≡ true
    → count id (take_one j rs) + one_if (j == id) ≡ count id rs
count-take_one id j [] h = ground arith
count-take_one id j (k ∷ rs) h =
    ground (arith, count-take_one id j rs, eq_iff k j, eq_iff j id, eq_iff k id)

module _ (id : String) where
  abbrev pub Counted : RemState → List String → Type 0
  Counted st rs =
      (count id rs ≡ one_if (is_some (get id st.pending)))
      × ((is_some (get id st.pending) && is_some (get id st.blocked)) ≡ false)

  abbrev pub SeatCounted : RemSeat → List String → Type 0
  SeatCounted (live st) rs = Counted st rs
  SeatCounted (ended e) rs = count id rs ≡ 0

  abbrev Kept : RemPlaces → Type 0
  Kept w = SeatCounted w.seat w.requests

  module _ (seat : RemSeat) (cs : List TimerCommand) (rs : List String) where
    abbrev Keeps : List Mail → Type 0
    Keeps ms = Kept (put_mail (state_of seat cs rs) ms)

    settle-Keeps : (st : RemState) → Counted st rs → Keeps (settle st)
    unfolding settle get
    settle-Keeps st h = ground arith

    cycle-Keeps : (f : ReminderCycleStarted) (st : RemState) → Counted st rs → Keeps (cycle f st)
    unfolding cycle
    cycle-Keeps f st h = ground arith

    pause-Keeps : (f : ReminderCyclePaused) (st : RemState) → Counted st rs → Keeps (pause f st)
    unfolding pause get
    pause-Keeps f st h = ground arith

    nudge-Keeps : (t : ReminderTimer) (st : RemState) → Counted st rs → Keeps (nudge st t)
    unfolding nudge
    nudge-Keeps t st h = ground (arith, eq_iff t.id id, get-put t.id id true st.pending)

    mature-Keeps : (d : TimerDue) (st : RemState) → Counted st rs → Keeps (mature d st)
    unfolding mature
    mature-Keeps d st h =
        ground (arith, nudge-Keeps d.timer (record st { matured = st.matured ++ d.timer.id ∷ [] }))

    wake-Keeps : (st : RemState) (c : ReminderClock) → Counted st rs → Keeps (wake st c)
    unfolding wake
    wake-Keeps st (overdue t due_at matured_at) h = ground (arith, nudge-Keeps t st)
    wake-Keeps st _ h = h

    snooze-Keeps : (f : SnoozeFact) (st : RemState) → Counted st rs → Keeps (fold_snooze f st)
    unfolding fold_snooze
    snooze-Keeps f st h = ground (arith, wake-Keeps (record st { snoozed = false }) st.clock)

    recover-Keeps :
        (f : RecoverFact) (st : RemState) (o : Option String)
        → Counted st rs
        → Keeps (recover_id f st o)
    unfolding recover_id
    recover-Keeps f st none h = ground arith
    recover-Keeps f st (some j) h =
        ground (arith, eq_iff j id, get-put j id true st.pending, get-without j id st.blocked)

    end-Keeps : (f : CloseFact) (st : RemState) → Counted st rs → Keeps (end f st)
    unfolding end get
    end-Keeps f st h = ground arith

    acked-Keeps :
        (a : TimerCommandApplied) (c : TimerCommand) (st : RemState)
        → Counted st rs
        → Keeps (command_applied a c st)
    unfolding command_applied settle get
    acked-Keeps a c st h = ground arith

    answer-Keeps :
        (js : List String) (j : String) (a : NudgeAnswer) (st : RemState)
        → count id rs + one_if (j == id) ≡ count id js
        → Counted st js
        → Keeps (fold_answer j a st)
    unfolding fold_answer settle get
    answer-Keeps js j landed st p h =
        ground (arith, eq_iff j id, get-without j id st.pending, get-without j id st.blocked)
    answer-Keeps js j blocked st p h =
        ground (arith, eq_iff j id, get-without j id st.pending, get-put j id true st.blocked)
    answer-Keeps js j (faulted x) st p h = ground (arith, eq_iff j id, get-without j id st.pending)

  live_keeps :
      (cs : List TimerCommand) (rs : List String) (st : RemState) (e : RemEvent)
      → Counted st rs
      → Kept (step (state_of (live st) cs rs) e)
  unfolding step fire_live recover
  live_keeps cs rs st (cycled f) h = cycle-Keeps (live st) cs rs f st h
  live_keeps cs rs st (paused f) h = pause-Keeps (live st) cs rs f st h
  live_keeps [] rs st (acked a) h = h
  live_keeps (c ∷ cs) rs st (acked a) h = acked-Keeps (live st) cs rs a c st h
  live_keeps cs rs st (matured d) h = mature-Keeps (live st) cs rs d st h
  live_keeps cs rs st (snoozed f) h = snooze-Keeps (live st) cs rs f st h
  live_keeps cs rs st (answered j a) h =
      ground (arith, answer-Keeps (live st) cs (take_one j rs) rs j a st, count-take_one id j rs)
  live_keeps cs rs st (recovered f) h =
      recover-Keeps (live st) cs rs f st (strip "reminder:" f.op) h
  live_keeps cs rs st (closed f) h = end-Keeps (live st) cs rs f st h

  pub step-SeatCounted :
      (seat : RemSeat) (cs : List TimerCommand) (rs : List String) (e : RemEvent)
      → SeatCounted seat rs
      → Kept (step (state_of seat cs rs) e)
  unfolding step fire_ended
  step-SeatCounted (live st) cs rs e h = live_keeps cs rs st e h
  step-SeatCounted (ended x) cs rs e h = ground arith

  run_keeps : (w : RemPlaces) (es : List RemEvent) → Kept w → Kept (final w es)
  unfolding final
  run_keeps w [] h = h
  run_keeps w (e ∷ es) h =
      run_keeps (step w e) es (step-SeatCounted w.seat w.commands w.requests e h)

  -- In every run of the reminder loop from its seed, for each timer id: the gate has the nudge in hand
  -- exactly once if the baton says that it is pending, and not at all otherwise or in the terminal
  -- record; and a pending nudge is not blocked.
  pub run-SeatCounted :
      (subject : String) (es : List RemEvent)
      → SeatCounted (final (newborn subject) es).seat (final (newborn subject) es).requests
  unfolding get
  run-SeatCounted subject es = run_keeps (newborn subject) es (refl, refl)
