-- ===== src/Rem/Folds.antt =====
-- The folds of the reminder loop.
use hamsterdan.Base.{
  ◌+◌, String, Bool, true, false, not, ◌&&◌, ◌||◌, Option, none, some, List, [], ◌∷◌, ◌++◌, ◌==◌,
  ltb, leb, eqb, is_some, if◌then◌else◌, get, put, without, strip,
}
use hamsterdan.Colors.{
  ReminderTimer, ReminderClock, no_clock, arming, armed, cancelling, overdue, TimerCommand,
  TimerDue, RemState, RemEnded, ReminderCycleStarted, ReminderCyclePaused, SnoozeMode, SnoozeFact,
  RecoverFact, CloseFact, reminder, reminder_fault, Mail, rem_state, rem_pub_req, rem_done,
  dash_facts,
}
use hamsterdan.Rem.Commands.{timer_of, issue_arm, issue_cancel, issue, settle, timer_eq}

-- `seed`
abbrev pub seed : String → RemState
seed subject = record {
  subject = subject;
  lifecycle_incarnation = 0;
  lifecycle_head = "";
  lifecycle_active = false;
  desired_timer = none;
  clock = no_clock;
  command_generation = 0;
  delay_s = 259200;
  matured = [];
  snoozed = false;
  pending = [];
  blocked = [];
  faulted = [];
  closing = none;
}

-- a cycle that is admitted, by the clock
abbrev pub rearm : RemState → ReminderTimer → List Mail
rearm s desired = elim s.clock [
  | arming t op ↦ rem_state s ∷ []
  | cancelling t op reason ↦ rem_state s ∷ []
  | armed t due_at ↦ if timer_eq t desired then rem_state s ∷ [] else issue (issue_arm s desired)
  | _ ↦ issue (issue_arm s desired)
]

-- `_cycle`
unfoldable pub cycle : ReminderCycleStarted → RemState → List Mail
cycle fact st =
    if is_some st.closing || leb fact.incarnation st.lifecycle_incarnation
    then rem_state st ∷ []
    else let desired = timer_of st fact.incarnation 0 fact.head in
      rearm
        (record st {
          lifecycle_incarnation = fact.incarnation;
          lifecycle_head = fact.head;
          lifecycle_active = true;
          desired_timer = some desired;
          delay_s = fact.delay_s;
        })
        desired

-- the clock of a baton that desires no timer any more is cancelled or dropped
abbrev pub release : RemState → String → List Mail
unfolding settle
release s reason = elim s.clock [
  | armed t due_at ↦ issue (issue_cancel s t reason)
  | overdue t due_at matured_at ↦ settle (record s { clock = no_clock })
  | _ ↦ settle s
]

-- `_pause`
unfoldable pub pause : ReminderCyclePaused → RemState → List Mail
unfolding settle
pause fact st =
    if ltb fact.incarnation st.lifecycle_incarnation
      || (eqb fact.incarnation st.lifecycle_incarnation && not st.lifecycle_active)
    then rem_state st ∷ []
    else release
        (record st {
          lifecycle_incarnation = fact.incarnation;
          lifecycle_head = fact.head;
          lifecycle_active = false;
          desired_timer = none;
        })
        fact.reason

-- the baton after `_next_after`, and its command
abbrev pub next_after : RemState → ReminderTimer → RemState × TimerCommand
next_after st t =
    let desired = timer_of st t.incarnation (t.sequence + 1) t.head in
    issue_arm (record st { desired_timer = some desired }) desired

-- `_request_nudge`: whether the nudge is new
abbrev pub is_known : RemState → String → Bool
is_known st id =
    is_some (get id st.pending) || is_some (get id st.blocked) || is_some (get id st.faulted)

-- `_request_nudge` and `_next_after`, mailed
unfoldable pub nudge : RemState → ReminderTimer → List Mail
unfolding get put
nudge st t =
    if is_known st t.id
    then issue (next_after st t)
    else issue (next_after (record st { pending = put t.id true st.pending }) t)
      ++ rem_pub_req (record { timer_id = t.id }) ∷ []

-- the maturity is the one of the armed clock
abbrev pub is_due : RemState → TimerDue → Bool
is_due st due = elim st.clock [
  | armed t due_at ↦ timer_eq t due.timer && due_at == due.due_at
  | _ ↦ false
]

-- `_mature`
unfoldable pub mature : TimerDue → RemState → List Mail
unfolding nudge
mature due st =
    let s = record st { matured = st.matured ++ due.timer.id ∷ [] } in
    if not (is_due s due) || is_some s.closing
    then rem_state s ∷ []
    else if s.snoozed
    then rem_state
        (record s { desired_timer = none; clock = overdue due.timer due.due_at due.matured_at })
      ∷ []
    else nudge s due.timer

-- the baton that is no longer snoozed, by the clock
unfoldable pub wake : RemState → ReminderClock → List Mail
unfolding nudge
wake s (overdue t due_at matured_at) = if is_some s.closing then rem_state s ∷ [] else nudge s t
wake s _ = rem_state s ∷ []

-- `_snooze`
unfoldable pub fold_snooze : SnoozeFact → RemState → List Mail
unfolding wake
fold_snooze fact st = elim fact.mode [
  | SnoozeMode.snooze ↦ rem_state (record st { snoozed = true }) ∷ []
  | SnoozeMode.clear ↦ wake (record st { snoozed = false }) st.clock
]

-- `_fold_landed`
unfoldable pub fold_landed : String → RemState → List Mail
unfolding settle without
fold_landed id st =
    settle (record st { pending = without id st.pending; blocked = without id st.blocked })
    ++ dash_facts (reminder id) ∷ []

-- `_fold_blocked`
unfoldable pub fold_blocked : String → RemState → List Mail
unfolding settle without put
fold_blocked id st =
    settle (record st { pending = without id st.pending; blocked = put id true st.blocked })

-- `_fold_fault`
unfoldable pub fold_fault : String → String → RemState → List Mail
unfolding settle without put
fold_fault id reason st =
    settle (record st { pending = without id st.pending; faulted = put id reason st.faulted })
    ++ dash_facts (reminder_fault reason) ∷ []

unfoldable pub recover_id : RecoverFact → RemState → Option String → List Mail
unfolding get put without
recover_id fact st none = rem_state st ∷ []
recover_id fact st (some id) =
    if not (fact.target == "reminder") || not (is_some (get id st.blocked)) || is_some st.closing
    then rem_state st ∷ []
    else rem_state (record st { pending = put id true st.pending; blocked = without id st.blocked })
      ∷ rem_pub_req (record { timer_id = id })
      ∷ []

-- `_recover`
unfoldable pub recover : RecoverFact → RemState → List Mail
unfolding recover_id strip
recover fact st = recover_id fact st (strip "reminder:" fact.op)

-- `_end`
unfoldable pub end : CloseFact → RemState → List Mail
unfolding settle
end close st =
    release (record st { closing = some close.reason; desired_timer = none }) close.reason

-- `_drain_timer`
unfoldable pub drain_timer : TimerDue → RemEnded → List Mail
drain_timer due ended =
    rem_done (record ended { matured = ended.matured ++ due.timer.id ∷ [] }) ∷ []

-- `_drain`
unfoldable pub drain : RemEnded → List Mail
drain ended = rem_done ended ∷ []
