-- ===== src/Rem/Authority.antt =====
-- On what grounds the reminder loop nudges.
use hamsterdan.Base.{
  String, Bool, true, false, Option, none, some, List, [], ◌∷◌, ◌≡◌, ◌==◌, eq_iff, arith, is_some,
  All, get, strip, refl,
}
use hamsterdan.Colors.{
  ReminderClock, overdue, TimerDue, TimerCommand, TimerCommandApplied, RemState, RemReq, SnoozeMode,
  SnoozeFact, RecoverFact, Mail, rem_pub_req,
}
use hamsterdan.Rem.Commands.{settle, command_applied}
use hamsterdan.Rem.Folds.{
  cycle, pause, mature, fold_snooze, recover, recover_id, end, nudge, wake, is_due, is_known,
}
use hamsterdan.Rem.Protocol.{
  RemSeat, live, ended, RemPlaces, NudgeAnswer, RemEvent, cycled, paused, acked, matured, snoozed,
  answered, recovered, closed, fire, fire_seat, fire_live, fire_ended, fold_answer,
}

-- the nudges mailed to the gate
abbrev pub nudges : List Mail → List RemReq
nudges [] = []
nudges (rem_pub_req r ∷ ms) = r ∷ nudges ms
nudges (_ ∷ ms) = nudges ms

abbrev pub is_overdue : ReminderClock → String → Bool
is_overdue (overdue t due_at matured_at) id = t.id == id
is_overdue _ id = false

-- the grounds on which a live loop nudges `r`
abbrev pub Grounds : RemState → RemEvent → RemReq → Type 0
Grounds st (matured d) r =
    (is_due st d ≡ true)
    × (st.snoozed ≡ false)
    × (st.closing ≡ none)
    × (r.timer_id ≡ d.timer.id)
    × (is_known st r.timer_id ≡ false)
Grounds st (snoozed f) r =
    (f.mode ≡ SnoozeMode.clear)
    × (is_overdue st.clock r.timer_id ≡ true)
    × (st.closing ≡ none)
    × (is_known st r.timer_id ≡ false)
Grounds st (recovered f) r =
    (f.target ≡ "reminder")
    × (strip "reminder:" f.op ≡ some r.timer_id)
    × (is_some (get r.timer_id st.blocked) ≡ true)
    × (st.closing ≡ none)
Grounds st _ r = ⊥

abbrev pub SeatGrounds : RemSeat → RemEvent → RemReq → Type 0
SeatGrounds (live st) e r = Grounds st e r
SeatGrounds (ended x) e r = ⊥

nudge-Grounds : (d : TimerDue) (st : RemState) → All (Grounds st (matured d)) (nudges (mature d st))
unfolding mature nudge
nudge-Grounds d st = ground arith

snooze-Grounds :
    (f : SnoozeFact) (st : RemState) (c : ReminderClock)
    → st.clock ≡ c
    → f.mode ≡ SnoozeMode.clear
    → All (Grounds st (snoozed f)) (nudges (wake (record st { snoozed = false }) c))
unfolding wake nudge
snooze-Grounds f st (overdue t due_at matured_at) p q = ground (arith, eq_iff t.id t.id)
snooze-Grounds f st _ p q = tt

recover-Grounds :
    (f : RecoverFact) (st : RemState) (o : Option String)
    → strip "reminder:" f.op ≡ o
    → All (Grounds st (recovered f)) (nudges (recover_id f st o))
unfolding recover_id
recover-Grounds f st none p = tt
recover-Grounds f st (some id) p = ground (arith, eq_iff f.target "reminder")

answer_nudges_nothing :
    (id : String) (a : NudgeAnswer) (st : RemState) → nudges (fold_answer id a st) ≡ []
unfolding fold_answer settle
answer_nudges_nothing id a st = ground arith

acked_nudges_nothing :
    (a : TimerCommandApplied) (c : TimerCommand) (st : RemState)
    → nudges (command_applied a c st) ≡ []
unfolding command_applied settle
acked_nudges_nothing a c st = ground arith

live_is_due :
    (w : RemPlaces) (st : RemState) (e : RemEvent)
    → All (Grounds st e) (nudges (fire_live w st e).1)
unfolding fire_live recover fold_snooze
live_is_due w st (cycled f) = unfold cycle in ground arith
live_is_due w st (paused f) = unfold pause settle in ground arith
live_is_due w st (acked a) =
    elim w.commands
      as (λ cs.
        All (Grounds st (acked a))
          (nudges (fire_live (record w { commands = cs }) st (acked a)).1)) [
            | [] ↦ tt
            | c ∷ rest ↦ rw (acked_nudges_nothing a c st) tt
          ]
live_is_due w st (matured d) = nudge-Grounds d st
live_is_due w st (snoozed f) = ground (arith, snooze-Grounds f st st.clock refl)
live_is_due w st (answered id a) = ground (arith, answer_nudges_nothing id a st)
live_is_due w st (recovered f) = recover-Grounds f st (strip "reminder:" f.op) refl
live_is_due w st (closed f) = unfold end settle in ground arith

seat_is_due :
    (w : RemPlaces) (s : RemSeat) (e : RemEvent)
    → All (SeatGrounds s e) (nudges (fire_seat w s e).1)
unfolding fire_seat fire_ended
seat_is_due w (live st) e = live_is_due w st e
seat_is_due w (ended x) e = ground arith

-- The reminder loop asks its gate for a nudge only on these grounds. A maturity: it is the armed clock's,
-- by timer and due time, the loop is neither snoozed nor closing, the nudge is that timer's, and
-- neither pending, blocked nor faulted. The end of a snooze: the nudge is the overdue timer's, not
-- pending, blocked nor faulted, and the loop is not closing. A recovery: it names the nudge, which is
-- blocked, and the loop is not closing. No other event and no ended loop nudges.
pub nudge_is_due : (w : RemPlaces) (e : RemEvent) → All (SeatGrounds w.seat e) (nudges (fire w e).1)
unfolding fire
nudge_is_due w e = seat_is_due w w.seat e
