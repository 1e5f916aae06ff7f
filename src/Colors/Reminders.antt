-- ===== src/Colors/Reminders.antt =====
-- The values of the reminder loop (contracts/readiness_v5.py).
use hamsterdan.Base.{ℕ, String, Bool, Option, List, Dict}

-- One generation of the reminder.
pub record ReminderTimer : Type 0 where
  pub id : String
  pub incarnation : ℕ
  pub sequence : ℕ
  pub head : String

pub record TimerDue : Type 0 where
  pub timer : ReminderTimer
  pub due_at : String
  pub matured_at : String

-- NoReminderClock, ArmingReminderClock, ArmedReminderClock, CancellingReminderClock and
-- OverdueReminderClock
pub data ReminderClock : Type 0 where
  no_clock : ReminderClock
  arming : ReminderTimer → String → ReminderClock
  armed : ReminderTimer → String → ReminderClock
  cancelling : ReminderTimer → String → String → ReminderClock
  overdue : ReminderTimer → String → String → ReminderClock

-- ArmReminder and CancelReminder
pub data ReminderCommand : Type 0 where
  arm : ReminderTimer → ℕ → ReminderCommand
  cancel : ReminderTimer → String → ReminderCommand

pub record TimerCommand : Type 0 where
  pub operation : String
  pub command : ReminderCommand

-- TimerArmed and TimerCancelled
pub data TimerResult : Type 0 where
  timer_armed : ReminderTimer → String → TimerResult
  timer_cancelled : ReminderTimer → TimerResult

pub record TimerCommandApplied : Type 0 where
  pub operation : String
  pub result : TimerResult

pub data SnoozeMode : Type 0 where
  snooze clear : SnoozeMode

pub record SnoozeFact : Type 0 where
  pub mode : SnoozeMode
  pub arg : String

-- The values of `pending` and `blocked` are all `True`.
pub record RemState : Type 0 where
  pub subject : String
  pub lifecycle_incarnation : ℕ
  pub lifecycle_head : String
  pub lifecycle_active : Bool
  pub desired_timer : Option ReminderTimer
  pub clock : ReminderClock
  pub command_generation : ℕ
  pub delay_s : ℕ
  pub matured : List String
  pub snoozed : Bool
  pub pending : Dict Bool
  pub blocked : Dict Bool
  pub faulted : Dict String
  pub closing : Option String

pub record RemReq : Type 0 where
  pub timer_id : String

pub record RemEnded : Type 0 where
  pub matured : List String
  pub reason : String
