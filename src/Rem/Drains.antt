-- ===== src/Rem/Drains.antt =====
-- A reminder loop that is closing ends once what it waits for has come.
use hamsterdan.Base.{
  ℕ, zero, suc, ◌+◌, ◌<◌, ◌≤◌, String, Bool, true, false, is_some, List, [], ◌∷◌, ◌≡◌, arith,
  length, refl, Bool-cases, inl, inr,
}
use hamsterdan.Colors.{RemState, TimerCommand}
use hamsterdan.Rem.Commands.{settle, command_applied}
use hamsterdan.Rem.Folds.{cycle, pause, mature, fold_snooze, recover, recover_id, end, wake, nudge}
use hamsterdan.Rem.Protocol.{
  RemSeat, live, ended, RemPlaces, newborn, RemEvent, cycled, paused, acked, matured, snoozed,
  answered, recovered, closed, is_member, step, final, fire_live, fire_ended, fold_answer,
}
use hamsterdan.Rem.Custody.{SeatCommanded, run-SeatCommanded, step-SeatCommanded, state_of}
use hamsterdan.Rem.Nudges.{count, SeatCounted, run-SeatCounted, step-SeatCounted}
use hamsterdan.Rem.Closing.{
  owed, settles, SeatWaits, step_waits, is_closing, seat_progress, CanSettle, seat_settles,
}

abbrev pub is_ended : RemSeat → Bool
is_ended (live st) = false
is_ended (ended e) = true

-- closing, or ended
abbrev Closes : RemSeat → Type 0
Closes (live st) = is_some st.closing ≡ true
Closes (ended e) = Unit

live-Closes :
    (cs : List TimerCommand) (rs : List String) (st : RemState) (e : RemEvent)
    → is_some st.closing ≡ true
    → Closes (step (state_of (live st) cs rs) e).seat
unfolding step fire_live
live-Closes cs rs st (cycled f) h = unfold cycle in ground arith
live-Closes cs rs st (paused f) h = unfold pause settle in ground arith
live-Closes [] rs st (acked a) h = h
live-Closes (c ∷ cs) rs st (acked a) h = unfold command_applied settle in ground arith
live-Closes cs rs st (matured d) h = unfold mature nudge in ground arith
live-Closes cs rs st (snoozed f) h = unfold fold_snooze wake nudge in ground arith
live-Closes cs rs st (answered id a) h = unfold fold_answer settle in ground arith
live-Closes cs rs st (recovered f) h = unfold recover recover_id in ground arith
live-Closes cs rs st (closed f) h = unfold end settle in ground arith

step-Closes :
    (seat : RemSeat) (cs : List TimerCommand) (rs : List String) (e : RemEvent)
    → Closes seat
    → Closes (step (state_of seat cs rs) e).seat
unfolding step fire_ended
step-Closes (live st) cs rs e h = live-Closes cs rs st e h
step-Closes (ended x) cs rs e h = ground arith

-- what every run keeps, and that the loop closes
abbrev Sound : RemPlaces → Type 0
Sound w =
    SeatCommanded w.seat w.commands
    × SeatWaits w.seat
    × ((id : String) → SeatCounted id w.seat w.requests)
    × Closes w.seat

step-Sound : (w : RemPlaces) (e : RemEvent) → Sound w → Sound (step w e)
step-Sound w e h = (
  step-SeatCommanded w.seat w.commands w.requests e h.0,
  step_waits w.seat w.commands w.requests e h.1,
  (λ id. step-SeatCounted id w.seat w.commands w.requests e (h.2 id)),
  step-Closes w.seat w.commands w.requests e h.3,
)

is_closing-live : (seat : RemSeat) → Closes seat → is_ended seat ≡ false → is_closing seat ≡ true
is_closing-live (live st) h p = h
is_closing-live (ended x) h p = cc

closing-Closes : (seat : RemSeat) → is_closing seat ≡ true → Closes seat
closing-Closes (live st) h = h
closing-Closes (ended x) h = tt

run_waits : (w : RemPlaces) (es : List RemEvent) → SeatWaits w.seat → SeatWaits (final w es).seat
unfolding final
run_waits w [] h = h
run_waits w (e ∷ es) h = run_waits (step w e) es (step_waits w.seat w.commands w.requests e h)

reached-Sound :
    (subject : String) (es : List RemEvent)
    → is_closing (final (newborn subject) es).seat ≡ true
    → Sound (final (newborn subject) es)
reached-Sound subject es q = (
  run-SeatCommanded subject es,
  run_waits (newborn subject) es tt,
  (λ id. run-SeatCounted id subject es),
  closing-Closes (final (newborn subject) es).seat q,
)

count-member : (id : String) (rs : List String) → is_member id rs ≡ true → 0 < count id rs
count-member id [] h = ground arith
count-member id (j ∷ rs) h = ground (arith, count-member id rs)

-- nothing settles a loop that has ended
ended_unsettled :
    (seat : RemSeat) (cs : List TimerCommand) (rs : List String) (e : RemEvent)
    → SeatCommanded seat cs
    → ((id : String) → SeatCounted id seat rs)
    → is_ended seat ≡ true
    → settles (state_of seat cs rs) e ≡ false
ended_unsettled (ended x) [] rs (acked a) h g p = refl
ended_unsettled (ended x) (c ∷ cs) rs (acked a) h g p = cc
ended_unsettled (ended x) cs rs (answered id a) h g p = ground (arith, g id, count-member id rs)
ended_unsettled seat cs rs e h g p = ground arith

progress : (w : RemPlaces) (e : RemEvent) → Sound w → settles w e ≡ true → owed (step w e) < owed w
progress w e h p = elim (Bool-cases (is_ended w.seat)) [
  | inl q ↦ absurd (true-ne-false w e p (ended_unsettled w.seat w.commands w.requests e h.0 h.2 q))
  | inr q ↦ seat_progress w.seat w.commands w.requests e h.0 (is_closing-live w.seat h.3 q) p
]
  where
    true-ne-false : (w : RemPlaces) (e : RemEvent) → settles w e ≡ true → settles w e ≡ false → ⊥
    true-ne-false w e p q = cc

-- events each of which settles the loop when its turn comes
abbrev pub Settling : RemPlaces → List RemEvent → Type 0
Settling w [] = Unit
Settling w (e ∷ es) = (settles w e ≡ true) × Settling (step w e) es

Settling-progress :
    (w : RemPlaces) (es : List RemEvent)
    → Sound w
    → Settling w es
    → length es + owed (final w es) ≤ owed w
unfolding final
Settling-progress w [] h s = omega arith
Settling-progress w (e ∷ es) h s =
    let p = progress w e h s.0 in
    let q = Settling-progress (step w e) es (step-Sound w e h) s.1 in omega arith

Settling-Sound : (w : RemPlaces) (es : List RemEvent) → Sound w → Settling w es → Sound (final w es)
unfolding final
Settling-Sound w [] h s = h
Settling-Sound w (e ∷ es) h s = Settling-Sound (step w e) es (step-Sound w e h) s.1

-- settling events that end the loop
abbrev pub Ends : RemPlaces → Type 0
Ends w = (rest : List RemEvent) × Settling w rest × (is_ended (final w rest).seat ≡ true)

step-Ends : (w : RemPlaces) (e : RemEvent) → settles w e ≡ true → Ends (step w e) → Ends w
unfolding final
step-Ends w e p (rest, s, q) = (e ∷ rest, (p, s), q)

Ends-or : (w : RemPlaces) → Sound w → (CanSettle w → Ends w) → Ends w
unfolding final
Ends-or w h f = elim (Bool-cases (is_ended w.seat)) [
  | inl q ↦ ([], tt, q)
  | inr q ↦ f (seat_settles w.seat w.commands w.requests h.0 h.1 h.2 (is_closing-live w.seat h.3 q))
]

-- `n` settling events are enough for what is owed
Sound-Ends : (n : ℕ) (w : RemPlaces) → Sound w → owed w ≤ n → Ends w
Sound-Ends zero w h k = Ends-or w h (λ (e, p). let g = progress w e h p in absurd (omega arith))
Sound-Ends (suc n) w h k = Ends-or w h (λ (e, p).
    let g = progress w e h p in
    step-Ends w e p (Sound-Ends n (step w e) (step-Sound w e h) (omega arith)))

-- In any state that a run of the reminder loop reaches and that is closing: whatever events follow, each
-- of which settles the loop when its turn comes (an acknowledgement that echoes the outstanding command,
-- or the gate's answer to a nudge in hand), they are at most as many as is owed less what is owed
-- after them; and there are further such events after which the loop has ended. Two acknowledgements
-- are owed for a timer that is still arming, one for one being cancelled, and an answer for each nudge
-- in hand; an ended loop is owed nothing.
pub closing_drains :
    (subject : String) (es settled : List RemEvent)
    → is_closing (final (newborn subject) es).seat ≡ true
    → Settling (final (newborn subject) es) settled
    → (length settled + owed (final (final (newborn subject) es) settled)
        ≤ owed (final (newborn subject) es))
      × Ends (final (final (newborn subject) es) settled)
closing_drains subject es settled q s =
    let w = final (newborn subject) es in
    let h = reached-Sound subject es q in
    (
      Settling-progress w settled h s,
      Sound-Ends (owed (final w settled)) (final w settled) (Settling-Sound w settled h s)
          (omega arith),
    )
