-- ===== src/Colors/Places.antt =====
-- A token on a place. Each place holds tokens of one color (the `declare` functions of
-- readiness/net_v5), so a constructor names a place and carries a token of its color. `route` is
-- the function of readiness/net_v5/folding.py: what is mailed to a place with no output arc is
-- dropped in silence.
use hamsterdan.Base.{
  String, Bool, false, ◌||◌, List, [], ◌∷◌, ◌==◌, if◌then◌else◌, Option, none, some,
}
use hamsterdan.Colors.Batons.{
  LifeState, CiState, ChecksFailure, Ladder, MutState, AnnounceReq, Snapshot,
}
use hamsterdan.Colors.Facts.{
  HeadWork, IntentFact, CloseFact, RunWork, ProvisionalHead, EscMoved, MutationRequest,
  MutationSettled, StateFact, ChecksFact, HumanFact, MutationPendingFact, MutationSettledFact,
  FaultRaisedFact, FaultClearedFact, ReviewFact, FindingsFact, ReminderCycleStarted,
  ReminderCyclePaused, RecoverFact, DashFact,
}
use hamsterdan.Colors.Reminders.{RemState, TimerCommand, RemReq, RemEnded, SnoozeFact}
use hamsterdan.Colors.Publications.{
  DismissFact, ConvMemory, ReplyReq, DashMemory, DashReq, DashHeal, DashEnded, SummaryPublished,
}
use hamsterdan.Colors.Reviews.{ReviewMemory, RoundOpen, Publishable, ReviewEnded}
use hamsterdan.Colors.Gates.{
  RerunReq, LadderEnded, CiEnded, MutWork, MutEnded, AnnounceCandidate, ADeferred, ReadyEnded,
}

pub data Mail : Type 0 where
  life_state : LifeState → Mail
  life_provisional : ProvisionalHead → Mail
  review_heads : HeadWork → Mail
  review_closed : CloseFact → Mail
  conv_intents : IntentFact → Mail
  rem_cycles : ReminderCycleStarted → Mail
  rem_pauses : ReminderCyclePaused → Mail
  rem_closed : CloseFact → Mail
  dash_facts : DashFact → Mail
  dash_closed : CloseFact → Mail
  ci_heads : HeadWork → Mail
  ci_runs : RunWork → Mail
  ci_echo : EscMoved → Mail
  ci_closed : CloseFact → Mail
  ci_state : CiState → Mail
  ci_done : CiEnded → Mail
  esc_failures : ChecksFailure → Mail
  esc_settled : MutationSettled → Mail
  esc_closed : CloseFact → Mail
  esc_ladder : Ladder → Mail
  esc_rerun_req : RerunReq → Mail
  esc_done : LadderEnded → Mail
  mut_requests : MutationRequest → Mail
  mut_closed : CloseFact → Mail
  mut_state : MutState → Mail
  mut_work : MutWork → Mail
  mut_done : MutEnded → Mail
  ready_state_facts : StateFact → Mail
  ready_checks_facts : ChecksFact → Mail
  ready_human_facts : HumanFact → Mail
  ready_mutation_pending_facts : MutationPendingFact → Mail
  ready_mutation_settled_facts : MutationSettledFact → Mail
  ready_fault_raised_facts : FaultRaisedFact → Mail
  ready_fault_cleared_facts : FaultClearedFact → Mail
  ready_closed : CloseFact → Mail
  ready_snap : Snapshot → Mail
  ready_candidate : AnnounceCandidate → Mail
  ready_announce_req : AnnounceReq → Mail
  ready_deferred : ADeferred → Mail
  ready_done : ReadyEnded → Mail
  rem_state : RemState → Mail
  rem_commands : TimerCommand → Mail
  rem_pub_req : RemReq → Mail
  rem_done : RemEnded → Mail
  rem_snoozes : SnoozeFact → Mail
  rem_recover : RecoverFact → Mail
  review_dismiss : DismissFact → Mail
  review_recover : RecoverFact → Mail
  esc_recover : RecoverFact → Mail
  mut_recover : RecoverFact → Mail
  ready_recover : RecoverFact → Mail
  dash_recover : RecoverFact → Mail
  conv_recover : RecoverFact → Mail
  conv_memory : ConvMemory → Mail
  conv_reply_req : ReplyReq → Mail
  dash_memory : DashMemory → Mail
  dash_pub_req : DashReq → Mail
  dash_heal : DashHeal → Mail
  dash_done : DashEnded → Mail
  startup_published : SummaryPublished → Mail
  review_memory : ReviewMemory → Mail
  review_round : RoundOpen → Mail
  review_publishable : Publishable → Mail
  review_done : ReviewEnded → Mail
  ready_review_facts : ReviewFact → Mail
  ready_findings_facts : FindingsFact → Mail

-- the path of the place
abbrev pub place : Mail → String
place (life_state _) = "life.state"
place (life_provisional _) = "life.provisional"
place (review_heads _) = "review.heads"
place (review_closed _) = "review.closed"
place (conv_intents _) = "conv.intents"
place (rem_cycles _) = "rem.cycles"
place (rem_pauses _) = "rem.pauses"
place (rem_closed _) = "rem.closed"
place (dash_facts _) = "dash.facts"
place (dash_closed _) = "dash.closed"
place (ci_heads _) = "ci.heads"
place (ci_runs _) = "ci.runs"
place (ci_echo _) = "ci.echo"
place (ci_closed _) = "ci.closed"
place (ci_state _) = "ci.state"
place (ci_done _) = "ci.done"
place (esc_failures _) = "esc.failures"
place (esc_settled _) = "esc.settled"
place (esc_closed _) = "esc.closed"
place (esc_ladder _) = "esc.ladder"
place (esc_rerun_req _) = "esc.rerun_req"
place (esc_done _) = "esc.done"
place (mut_requests _) = "mut.requests"
place (mut_closed _) = "mut.closed"
place (mut_state _) = "mut.state"
place (mut_work _) = "mut.work"
place (mut_done _) = "mut.done"
place (ready_state_facts _) = "ready.state_facts"
place (ready_checks_facts _) = "ready.checks_facts"
place (ready_human_facts _) = "ready.human_facts"
place (ready_mutation_pending_facts _) = "ready.mutation_pending_facts"
place (ready_mutation_settled_facts _) = "ready.mutation_settled_facts"
place (ready_fault_raised_facts _) = "ready.fault_raised_facts"
place (ready_fault_cleared_facts _) = "ready.fault_cleared_facts"
place (ready_closed _) = "ready.closed"
place (ready_snap _) = "ready.snap"
place (ready_candidate _) = "ready.candidate"
place (ready_announce_req _) = "ready.announce_req"
place (ready_deferred _) = "ready.deferred"
place (ready_done _) = "ready.done"
place (rem_state _) = "rem.state"
place (rem_commands _) = "rem.commands"
place (rem_pub_req _) = "rem.pub_req"
place (rem_done _) = "rem.done"
place (rem_snoozes _) = "rem.snoozes"
place (rem_recover _) = "rem.recover"
place (review_dismiss _) = "review.dismiss"
place (review_recover _) = "review.recover"
place (esc_recover _) = "esc.recover"
place (mut_recover _) = "mut.recover"
place (ready_recover _) = "ready.recover"
place (dash_recover _) = "dash.recover"
place (conv_recover _) = "conv.recover"
place (conv_memory _) = "conv.memory"
place (conv_reply_req _) = "conv.reply_req"
place (dash_memory _) = "dash.memory"
place (dash_pub_req _) = "dash.pub_req"
place (dash_heal _) = "dash.heal"
place (dash_done _) = "dash.done"
place (startup_published _) = "startup.published"
place (review_memory _) = "review.memory"
place (review_round _) = "review.round"
place (review_publishable _) = "review.publishable"
place (review_done _) = "review.done"
place (ready_review_facts _) = "ready.review_facts"
place (ready_findings_facts _) = "ready.findings_facts"

-- `str(out.target) in mapping`, read from the other side: the place is among the output arcs
abbrev pub mem_text : String → List String → Bool
mem_text p [] = false
mem_text p (q ∷ qs) = p == q || mem_text p qs

abbrev pub route : List String → List Mail → List Mail
route outputs [] = []
route outputs (m ∷ ms) =
    let rest = route outputs ms in if mem_text (place m) outputs then m ∷ rest else rest

-- what a transition sends; one that raises sends nothing
abbrev pub sent : Option (List Mail) → List Mail
sent none = []
sent (some ms) = ms
