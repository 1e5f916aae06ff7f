-- ===== src/Host/Publish.antt =====
-- The gates of V5PublicationGates (src/hamsterdan/host/v5/gates.py) that need no claim: replies,
-- reminders and the dashboard. What the publisher answers is a parameter.
use hamsterdan.Base.{
  String, Bool, not, ◌||◌, List, ◌==◌, ◌≡◌, refl, if◌then◌else◌, ◌⧺◌, Bool-cases, inl, inr,
}
use hamsterdan.Colors.{
  Phase, phase_eq, quiescent, Mail, ReplyReq, RemReq, DashReq, DashLanded, DashDeferred,
  DashBlocked, DashFault, Replied, ReplyBlocked, ReplyFault,
}
use hamsterdan.Rem.Protocol.{NudgeAnswer}
use hamsterdan.Host.Broker.{PublicationResult}
use hamsterdan.Host.Announce.{Outcome, returned, unstaged, unreachable, raised, is_held}
use hamsterdan.Dash.Protocol.{
  in_flight, DashState, DashEvent, fire, put_mail, landed_of, deferred_of, blocked_of, fault_of,
}
use hamsterdan.Dash.{Repr, fold_landed, fold_deferred, fold_blocked, fold_fault}

-- what is proved of an effect: held, denied by a capability, or unclassified
pub data Proof : Type 0 where
  proven : Proof
  denied : Proof
  unproven : String → Proof

-- `_unproven`
unfoldable pub prove_with : (String → Bool) → PublicationResult → Proof
prove_with held result =
    if not result.capability_available
    then denied
    else if held result.status
    then proven
    else unproven ("unclassified publication status '" ⧺ result.status ⧺ "'")

-- the terminal of a publisher's answer: a GitHubBoundaryError blocks, a RuntimeError or ValueError faults
unfoldable pub publish_outcome : (String → Bool) → Outcome PublicationResult → Proof
unfolding prove_with
publish_outcome held (returned result) = prove_with held result
publish_outcome held (unstaged blocker) = denied
publish_outcome held unreachable = denied
publish_outcome held (raised reason) = unproven reason

-- `_DASH_HELD`
abbrev pub is_dash_held : String → Bool
is_dash_held status = status == "created" || status == "existing" || status == "updated"

pub data DashAnswer : Type 0 where
  landed : DashLanded → DashAnswer
  deferred : DashDeferred → DashAnswer
  blocked : DashBlocked → DashAnswer
  faulted : DashFault → DashAnswer

abbrev pub dash_answer : DashReq → Proof → DashAnswer
dash_answer work proven = landed (landed_of work)
dash_answer work denied = blocked (blocked_of work)
dash_answer work (unproven reason) = faulted (fault_of work reason)

-- `dash_gate`, in the phase that `dashboard_phase` gives
unfoldable pub dash_gate : Phase → Outcome PublicationResult → DashReq → DashAnswer
unfolding publish_outcome
dash_gate phase answer work =
    if phase_eq phase quiescent
    then deferred (deferred_of work)
    else dash_answer work (publish_outcome is_dash_held answer)

pub data ReplyAnswer : Type 0 where
  replied : Replied → ReplyAnswer
  reply_blocked : ReplyBlocked → ReplyAnswer
  reply_faulted : ReplyFault → ReplyAnswer

abbrev pub reply_answer : ReplyReq → Proof → ReplyAnswer
reply_answer work proven = replied (record { id = work.id; text = work.text })
reply_answer work denied = reply_blocked (record { id = work.id; text = work.text })
reply_answer work (unproven reason) =
    reply_faulted (record { id = work.id; text = work.text; reason = reason })

-- `reply_gate`
unfoldable pub reply_gate : Outcome PublicationResult → ReplyReq → ReplyAnswer
unfolding publish_outcome
reply_gate answer work = reply_answer work (publish_outcome is_held answer)

-- the identity of a reminder with its terminal
abbrev pub nudge_answer : Proof → NudgeAnswer
nudge_answer proven = NudgeAnswer.landed
nudge_answer denied = NudgeAnswer.blocked
nudge_answer (unproven reason) = NudgeAnswer.faulted reason

-- `reminder_gate`
unfoldable pub reminder_gate : Outcome PublicationResult → RemReq → String × NudgeAnswer
unfolding publish_outcome
reminder_gate answer work = (work.timer_id, nudge_answer (publish_outcome is_held answer))

-- the event of the dashboard's protocol that a terminal is, and the fold that its color is routed to
abbrev pub event_of : DashAnswer → DashEvent
event_of (landed out) = DashEvent.landed
event_of (deferred out) = DashEvent.deferred
event_of (blocked out) = DashEvent.blocked
event_of (faulted out) = DashEvent.faulted out.reason

abbrev pub fold_of : DashAnswer → List Mail
fold_of (landed out) = fold_landed out
fold_of (deferred out) = fold_deferred out
fold_of (blocked out) = fold_blocked out
fold_of (faulted out) = fold_fault out

-- the state once the terminal is folded; a landed upsert is shown
abbrev pub folded : DashReq → DashState → DashAnswer → DashState
folded work s (landed out) =
    put_mail (record s { shown = (work.entries, work.digest) }) (fold_landed out)
folded work s a = put_mail s (fold_of a)

answer_refines :
    (repr : Repr) (work : DashReq) (p : Proof) (s : DashState)
    → folded work s (dash_answer work p)
      ≡ fire repr (in_flight work) (event_of (dash_answer work p)) s
unfolding fire
answer_refines repr work proven s = refl
answer_refines repr work denied s = refl
answer_refines repr work (unproven reason) s = refl

-- The dashboard gate refines the dashboard's protocol: folding its terminal is the transition of the
-- protocol for the upsert in flight, whatever the publisher answers.
pub dash_gate_refines :
    (repr : Repr) (phase : Phase) (answer : Outcome PublicationResult) (work : DashReq)
    (s : DashState)
    → folded work s (dash_gate phase answer work)
      ≡ fire repr (in_flight work) (event_of (dash_gate phase answer work)) s
unfolding dash_gate fire
dash_gate_refines repr phase answer work s = elim (Bool-cases (phase_eq phase quiescent)) [
  | inl p ↦ rw p refl
  | inr p ↦ rw p (answer_refines repr work (publish_outcome is_dash_held answer) s)
]
