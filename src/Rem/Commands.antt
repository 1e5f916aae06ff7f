-- ===== src/Rem/Commands.antt =====
-- The timer protocol of the reminder loop: what it commands, and what an acknowledgement does.
use hamsterdan.Base.{
  ℕ, ◌+◌, String, Bool, true, false, not, ◌&&◌, ◌||◌, Option, none, some, List, [], ◌∷◌, ◌==◌, eqb,
  is_some, if◌then◌else◌, ◌⧺◌, decimal,
}
use hamsterdan.Colors.{
  ReminderTimer, ReminderClock, no_clock, arming, armed, cancelling, ReminderCommand, arm, cancel,
  TimerCommand, TimerResult, timer_armed, timer_cancelled, TimerCommandApplied, RemState, Mail,
  rem_state, rem_commands, rem_done,
}

-- `_timer`
abbrev pub timer_of : RemState → ℕ → ℕ → String → ReminderTimer
timer_of st incarnation sequence head = record {
  id = "timer:" ⧺ st.subject ⧺ ":i" ⧺ decimal incarnation ⧺ ":s" ⧺ decimal sequence;
  incarnation = incarnation;
  sequence = sequence;
  head = head;
}

-- `_operation`: the identity under the next generation
abbrev pub operation_of : RemState → String
operation_of st = "timer-command:" ⧺ st.subject ⧺ ":g" ⧺ decimal (st.command_generation + 1)

-- `_issue_arm`: the new baton and the command
abbrev pub issue_arm : RemState → ReminderTimer → RemState × TimerCommand
issue_arm st t = (
  record st { clock = arming t (operation_of st); command_generation = st.command_generation + 1 },
  record { operation = operation_of st; command = arm t st.delay_s },
)

-- `_issue_cancel`
abbrev pub issue_cancel : RemState → ReminderTimer → String → RemState × TimerCommand
issue_cancel st t reason = (
  record st {
    clock = cancelling t (operation_of st) reason;
    command_generation = st.command_generation + 1;
  },
  record { operation = operation_of st; command = cancel t reason },
)

-- the baton and the command, mailed
abbrev pub issue : RemState × TimerCommand → List Mail
issue p = rem_state p.0 ∷ rem_commands p.1 ∷ []

-- `isinstance(st.clock, NoReminderClock)`
abbrev pub has_no_clock : ReminderClock → Bool
has_no_clock no_clock = true
has_no_clock _ = false

-- `not` of a dictionary
abbrev pub is_empty {ℓ} : {A : Type ℓ} → List A → Bool
is_empty [] = true
is_empty (_ ∷ _) = false

-- `_settle`, with the terminal record of `_done`
unfoldable pub settle : RemState → List Mail
settle st = elim st.closing [
  | none ↦ rem_state st ∷ []
  | some reason ↦
      if is_empty st.pending && has_no_clock st.clock
      then rem_done (record { matured = st.matured; reason = reason }) ∷ []
      else rem_state st ∷ []
]

-- `==` on timers
abbrev pub timer_eq : ReminderTimer → ReminderTimer → Bool
timer_eq s t =
    s.id == t.id && eqb s.incarnation t.incarnation && eqb s.sequence t.sequence && s.head == t.head

-- `st.desired_timer == timer`
abbrev pub desires : Option ReminderTimer → ReminderTimer → Bool
desires none t = false
desires (some d) t = timer_eq d t

abbrev pub command_timer : ReminderCommand → ReminderTimer
command_timer (arm t delay_s) = t
command_timer (cancel t reason) = t

abbrev pub result_timer : TimerResult → ReminderTimer
result_timer (timer_armed t due_at) = t
result_timer (timer_cancelled t) = t

-- why an armed timer that nothing desires is cancelled
abbrev pub cancel_reason : Option String → String
cancel_reason none = "draft"
cancel_reason (some reason) = reason

-- the armed branch of `_command_applied`
unfoldable pub fold_armed : RemState → ReminderTimer → String → List Mail
fold_armed st t due_at =
    let s = record st { clock = armed t due_at } in
    if desires s.desired_timer t && not (is_some s.closing)
    then rem_state s ∷ []
    else elim s.desired_timer [
      | none ↦ issue (issue_cancel s t (cancel_reason s.closing))
      | some d ↦ issue (issue_arm s d)
    ]

-- the cancelled branch of `_command_applied`
unfoldable pub fold_cancelled : RemState → List Mail
unfolding settle
fold_cancelled st =
    let s = record st { clock = no_clock } in
    elim s.desired_timer [
      | none ↦ settle s
      | some d ↦ if is_some s.closing then settle s else issue (issue_arm s d)
    ]

unfoldable pub fold_result : TimerCommand → RemState → ReminderCommand → TimerResult → List Mail
unfolding fold_armed fold_cancelled
fold_result issued st (arm t delay_s) (timer_armed u due_at) = fold_armed st u due_at
fold_result issued st (cancel t reason) (timer_cancelled u) = fold_cancelled st
fold_result issued st _ _ = rem_state st ∷ rem_commands issued ∷ []

-- `_command_applied`
unfoldable pub command_applied : TimerCommandApplied → TimerCommand → RemState → List Mail
unfolding fold_result
command_applied ack issued st =
    if not (ack.operation == issued.operation)
      || not (timer_eq (result_timer ack.result) (command_timer issued.command))
    then rem_state st ∷ rem_commands issued ∷ []
    else fold_result issued st issued.command ack.result
