-- ===== src/Rem/Examples.antt =====
-- A reminder that is armed, matures, and is cancelled when the pull request closes.
use hamsterdan.Base.{◌+◌, ◌≤◌, length, List, [], ◌∷◌, ◌++◌, ◌≡◌, refl, decimal, get, put}
use hamsterdan.Colors.{ReminderTimer, timer_armed, TimerDue}
use hamsterdan.Rem.Commands.{settle}
use hamsterdan.Rem.Protocol.{
  newborn, landed, RemEvent, cycled, acked, matured, answered, closed, final, step,
}
use hamsterdan.Rem.Custody.{SeatCommanded, run-SeatCommanded}
use hamsterdan.Rem.Nudges.{SeatCounted, run-SeatCounted}
use hamsterdan.Rem.Closing.{owed}
use hamsterdan.Rem.Drains.{Ends, closing_drains}

abbrev first : ReminderTimer
first = record { id = "timer:pr7:i1:s0"; incarnation = 1; sequence = 0; head = "c1" }

abbrev arms : List RemEvent
arms =
    cycled (record { incarnation = 1; head = "c1"; delay_s = 60 })
    ∷ acked (record { operation = "timer-command:pr7:g1"; result = timer_armed first "noon" })
    ∷ []

abbrev due : TimerDue
due = record { timer = first; due_at = "noon"; matured_at = "noon" }

-- the timer matures, its nudge goes out and the next timer is being armed; then the pull request closes
abbrev closes : List RemEvent
closes = arms ++ matured due ∷ closed (record { reason = "merged" }) ∷ []

run-SeatCommanded_example :
    SeatCommanded (final (newborn "pr7") closes).seat (final (newborn "pr7") closes).commands
run-SeatCommanded_example = run-SeatCommanded "pr7" closes

run-SeatCounted_example :
    SeatCounted "timer:pr7:i1:s0"
      (final (newborn "pr7") closes).seat
      (final (newborn "pr7") closes).requests
run-SeatCounted_example = run-SeatCounted "timer:pr7:i1:s0" "pr7" closes

test_nudged : (final (newborn "pr7") closes).requests ≡ "timer:pr7:i1:s0" ∷ []
unfolding final step decimal get put settle
test_nudged = refl

abbrev answers : List RemEvent
answers = answered "timer:pr7:i1:s0" landed ∷ []

closing_drains_example :
    (length answers + owed (final (final (newborn "pr7") closes) answers)
      ≤ owed (final (newborn "pr7") closes))
    × Ends (final (final (newborn "pr7") closes) answers)
unfolding final step decimal get put settle
closing_drains_example = closing_drains "pr7" closes answers refl (refl, tt)
