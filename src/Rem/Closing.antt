-- ===== src/Rem/Closing.antt =====
-- What a reminder loop that is closing waits for: the acknowledgements of its clock, and the answers to
-- the nudges in the gate's hands.
use hamsterdan.Base.{
  ℕ, ◌+◌, ◌<◌, ◌≤◌, String, Bool, true, false, ◌&&◌, Option, none, some, List, [], ◌∷◌, ◌≡◌, ◌==◌,
  eq_iff, arith, is_some, one_if, length, Dict, get, refl,
}
use hamsterdan.Colors.{
  ReminderClock, no_clock, arming, armed, cancelling, overdue, ReminderCommand, arm, cancel,
  TimerCommand, TimerResult, timer_armed, timer_cancelled, TimerCommandApplied, RemState,
}
use hamsterdan.Rem.Commands.{
  settle, command_applied, is_empty, timer_eq, result_timer, command_timer,
}
use hamsterdan.Rem.Folds.{cycle, pause, mature, fold_snooze, recover, recover_id, end, wake, nudge}
use hamsterdan.Rem.Protocol.{
  RemSeat, live, ended, RemPlaces, NudgeAnswer, landed, RemEvent, cycled, paused, acked, matured,
  snoozed, answered, recovered, closed, put_mail, take_one, is_member, step, fire_live, fire_ended,
  fold_answer,
}
use hamsterdan.Rem.Custody.{SeatCommanded, IsCommanded, state_of}
use hamsterdan.Rem.Nudges.{count, SeatCounted}

-- what the clock waits for: an armed timer is still to be cancelled
abbrev pub clock_owed : ReminderClock → ℕ
clock_owed (arming t op) = 2
clock_owed (cancelling t op reason) = 1
clock_owed _ = 0

-- what the loop waits for: the acknowledgements of its clock, and the nudges in the gate's hands
abbrev pub owed : RemPlaces → ℕ
owed w = elim w.seat [ live st ↦ clock_owed st.clock + length w.requests | ended e ↦ 0 ]

abbrev pub is_kind : ReminderCommand → TimerResult → Bool
is_kind (arm t d) (timer_armed u due_at) = true
is_kind (cancel t r) (timer_cancelled u) = true
is_kind _ _ = false

-- the host's acknowledgement echoes the command
abbrev pub echoes : TimerCommandApplied → TimerCommand → Bool
echoes a c =
    a.operation == c.operation
    && timer_eq (result_timer a.result) (command_timer c.command)
    && is_kind c.command a.result

-- an acknowledgement or an answer that the loop waits for
abbrev pub settles : RemPlaces → RemEvent → Bool
settles w (acked a) = elim w.commands [ [] ↦ false | c ∷ rest ↦ echoes a c ]
settles w (answered id a) = is_member id w.requests
settles w _ = false

abbrev pub WaitsFor : ReminderClock → Dict Bool → Type 0
WaitsFor (arming t op) p = Unit
WaitsFor (cancelling t op r) p = Unit
WaitsFor no_clock p = is_empty p ≡ false
WaitsFor _ p = ⊥

-- a closing loop has not ended because something is outstanding
abbrev pub Waits : RemState → Type 0
Waits st = elim st.closing [ none ↦ Unit | some reason ↦ WaitsFor st.clock st.pending ]

abbrev pub SeatWaits : RemSeat → Type 0
SeatWaits (live st) = Waits st
SeatWaits (ended e) = Unit

live-Waits :
    (cs : List TimerCommand) (rs : List String) (st : RemState) (e : RemEvent)
    → Waits st
    → SeatWaits (step (state_of (live st) cs rs) e).seat
unfolding step fire_live
live-Waits cs rs st (cycled f) h = unfold cycle in ground arith
live-Waits cs rs st (paused f) h = unfold pause settle in ground arith
live-Waits [] rs st (acked a) h = h
live-Waits (c ∷ cs) rs st (acked a) h = unfold command_applied settle in ground arith
live-Waits cs rs st (matured d) h = unfold mature nudge in ground arith
live-Waits cs rs st (snoozed f) h = unfold fold_snooze wake nudge in ground arith
live-Waits cs rs st (answered id a) h = unfold fold_answer settle in ground arith
live-Waits cs rs st (recovered f) h = unfold recover recover_id in ground arith
live-Waits cs rs st (closed f) h = unfold end settle in ground arith

pub step_waits :
    (seat : RemSeat) (cs : List TimerCommand) (rs : List String) (e : RemEvent)
    → SeatWaits seat
    → SeatWaits (step (state_of seat cs rs) e).seat
unfolding step fire_ended
step_waits (live st) cs rs e h = live-Waits cs rs st e h
step_waits (ended x) cs rs e h = ground arith

length-take_one :
    (id : String) (rs : List String)
    → is_member id rs ≡ true
    → length (take_one id rs) + 1 ≡ length rs
length-take_one id [] h = ground arith
length-take_one id (j ∷ rs) h = ground (arith, length-take_one id rs)

count-length : (id : String) (rs : List String) → count id rs ≤ length rs
count-length id [] = ground arith
count-length id (j ∷ rs) = ground (arith, count-length id rs)

-- what is pending is in the gate's hands
pending_in_hand :
    (p : Dict Bool) (rs : List String)
    → is_empty p ≡ false
    → ((id : String) → count id rs ≡ one_if (is_some (get id p)))
    → 0 < length rs
unfolding get
pending_in_hand [] rs h g = ground arith
pending_in_hand ((k, v) ∷ p) rs h g = ground (arith, g k, eq_iff k k, count-length k rs)

answer_progress :
    (id : String) (a : NudgeAnswer) (st : RemState) (seat : RemSeat) (cs : List TimerCommand)
    (rs : List String)
    → owed (put_mail (state_of seat cs rs) (fold_answer id a st)) ≤ clock_owed st.clock + length rs
unfolding fold_answer settle
answer_progress id a st seat cs rs = ground arith

acked_progress :
    (a : TimerCommandApplied) (c : TimerCommand) (st : RemState) (seat : RemSeat)
    (cs : List TimerCommand) (rs : List String)
    → SeatCommanded (live st) (c ∷ cs)
    → is_some st.closing ≡ true
    → echoes a c ≡ true
    → owed (put_mail (state_of seat cs rs) (command_applied a c st))
      < clock_owed st.clock + length rs
unfolding command_applied settle
acked_progress a c st seat cs rs h q p = ground arith

live_progress :
    (cs : List TimerCommand) (rs : List String) (st : RemState) (e : RemEvent)
    → SeatCommanded (live st) cs
    → is_some st.closing ≡ true
    → settles (state_of (live st) cs rs) e ≡ true
    → owed (step (state_of (live st) cs rs) e) < clock_owed st.clock + length rs
unfolding step fire_live
live_progress (c ∷ cs) rs st (acked a) h q p = acked_progress a c st (live st) cs rs h q p
live_progress cs rs st (answered id a) h q p =
    ground (arith, answer_progress id a st (live st) cs (take_one id rs), length-take_one id rs)
live_progress cs rs st _ h q p = ground arith

-- a live loop that is closing
abbrev pub is_closing : RemSeat → Bool
is_closing (live st) = is_some st.closing
is_closing (ended e) = false

pub seat_progress :
    (seat : RemSeat) (cs : List TimerCommand) (rs : List String) (e : RemEvent)
    → SeatCommanded seat cs
    → is_closing seat ≡ true
    → settles (state_of seat cs rs) e ≡ true
    → owed (step (state_of seat cs rs) e) < owed (state_of seat cs rs)
seat_progress (live st) cs rs e h q p = live_progress cs rs st e h q p
seat_progress (ended x) cs rs e h q p = ground arith

-- the acknowledgement that a command waits for
abbrev result_of : ReminderCommand → TimerResult
result_of (arm t delay_s) = timer_armed t ""
result_of (cancel t reason) = timer_cancelled t

abbrev ack_of : TimerCommand → TimerCommandApplied
ack_of c = record { operation = c.operation; result = result_of c.command }

ack_of-echoes :
    (c : TimerCommand) (k : ReminderCommand) → c.command ≡ k → echoes (ack_of c) c ≡ true
ack_of-echoes c (arm t d) p =
    ground (arith, eq_iff c.operation c.operation, eq_iff t.id t.id, eq_iff t.head t.head)
ack_of-echoes c (cancel t r) p =
    ground (arith, eq_iff c.operation c.operation, eq_iff t.id t.id, eq_iff t.head t.head)

-- an event that settles the places
abbrev pub CanSettle : RemPlaces → Type 0
CanSettle w = (e : RemEvent) × (settles w e ≡ true)

command_settles :
    (seat : RemSeat) (c : TimerCommand) (cs : List TimerCommand) (rs : List String)
    → CanSettle (state_of seat (c ∷ cs) rs)
command_settles seat c cs rs = (acked (ack_of c), ack_of-echoes c c.command refl)

request_settles :
    (seat : RemSeat) (cs : List TimerCommand) (rs : List String)
    → 0 < length rs
    → CanSettle (state_of seat cs rs)
request_settles seat cs [] h = absurd (omega arith)
request_settles seat cs (id ∷ rs) h = (answered id landed, ground (arith, eq_iff id id))

live_settles :
    (st : RemState) (c : ReminderClock) (cs : List TimerCommand) (rs : List String)
    → IsCommanded c cs
    → WaitsFor c st.pending
    → ((id : String) → SeatCounted id (live st) rs)
    → CanSettle (state_of (live st) cs rs)
live_settles st (arming t op) [] rs h g k = absurd h
live_settles st (arming t op) (c ∷ cs) rs h g k = command_settles (live st) c cs rs
live_settles st (cancelling t op r) [] rs h g k = absurd h
live_settles st (cancelling t op r) (c ∷ cs) rs h g k = command_settles (live st) c cs rs
live_settles st no_clock cs rs h g k =
    request_settles (live st) cs rs (pending_in_hand st.pending rs g (λ id. (k id).0))
live_settles st (armed t due_at) cs rs h g k = absurd g
live_settles st (overdue t due_at matured_at) cs rs h g k = absurd g

Waits-WaitsFor :
    (st : RemState) → is_some st.closing ≡ true → Waits st → WaitsFor st.clock st.pending
Waits-WaitsFor st q h = closes st.closing refl
  where
    closes : (o : Option String) → st.closing ≡ o → WaitsFor st.clock st.pending
    closes none p = cc
    closes (some r) p = rw p at h

pub seat_settles :
    (seat : RemSeat) (cs : List TimerCommand) (rs : List String)
    → SeatCommanded seat cs
    → SeatWaits seat
    → ((id : String) → SeatCounted id seat rs)
    → is_closing seat ≡ true
    → CanSettle (state_of seat cs rs)
seat_settles (live st) cs rs h g k q = live_settles st st.clock cs rs h.0 (Waits-WaitsFor st q g) k
seat_settles (ended x) cs rs h g k q = cc
