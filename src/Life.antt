-- ===== src/Life.antt =====
-- src/hamsterdan/readiness/net_v5/life.py: the lifecycle loop. Each fold takes the bound tokens and
-- returns the mapping that it hands to `route`, one item for each token. The engine that picks the
-- next transition is not in the repository: a run takes the events in any order.
pub mod Wiring
mod Examples
pub mod Traces
pub mod Incarnation
pub mod Dormancy
pub mod Expectation
use hamsterdan.Base.{
  ℕ, ◌+◌, String, Bool, true, false, not, ◌||◌, ◌&&◌, List, [], ◌∷◌, ◌++◌, ◌==◌, if◌then◌else◌,
}
use mathlib.Core.Bool.{beq}
use hamsterdan.Colors.{
  Phase, running, quiescent, terminal, phase_eq, HeadRelation, new, superseded, confirmed, resumed,
  refreshed, is_refreshed, HeadSeen, CloseSeen, CommentSeen, HumanSeen, RunSeen, LifeState,
  HeadWork, IntentFact, CloseFact, RunWork, ProvisionalHead, StateFact, HumanFact,
  ReminderCycleStarted, ReminderCyclePaused, state, human, Mail, life_state, review_heads, ci_heads,
  ready_state_facts, dash_facts, rem_cycles, rem_pauses, review_closed, ci_closed, esc_closed,
  mut_closed, dash_closed, rem_closed, ready_closed, conv_intents, ready_human_facts, ci_runs,
}

-- `seed`
abbrev pub seed : ℕ → LifeState
seed delay = record {
  phase = running;
  incarnation = 0;
  head = "";
  base = "";
  mergeable = false;
  policy = "";
  expected = "";
  expected_op = "";
  lineage = "";
  reminder_delay_s = delay;
  strict_base = true;
  base_current = false;
}

-- `_state_fact`
abbrev pub state_fact : LifeState → StateFact
state_fact s = record {
  incarnation = s.incarnation;
  body = record {
    phase = s.phase;
    head = s.head;
    base = s.base;
    mergeable = s.mergeable;
    policy = s.policy;
    strict_base = s.strict_base;
    base_current = s.base_current;
  };
}

-- `_admitted_state_outputs`
pub admitted_state_outputs : LifeState → HeadWork → List Mail
admitted_state_outputs s work =
    life_state s
    ∷ review_heads work
    ∷ ci_heads work
    ∷ ready_state_facts (state_fact s)
    ∷ dash_facts (state (state_fact s))
    ∷ (if is_refreshed work.relation
        then []
        else rem_cycles
            (record { incarnation = s.incarnation; head = s.head; delay_s = s.reminder_delay_s })
          ∷ [])

-- what a head observation says apart from the head
abbrev observe : HeadSeen → LifeState → LifeState
observe seen s = record s {
  base = seen.base;
  mergeable = seen.mergeable;
  policy = seen.policy;
  strict_base = seen.strict_base;
  base_current = seen.base_current;
}

abbrev is_refresh : HeadSeen → LifeState → Bool
is_refresh seen s =
    not (seen.base == s.base)
    || not (beq seen.mergeable s.mergeable)
    || not (seen.policy == s.policy)
    || not (beq seen.strict_base s.strict_base)
    || not (beq seen.base_current s.base_current)

-- the head observed is the one that lifecycle stands on
admit_same : HeadSeen → LifeState → List Mail
unfolding admitted_state_outputs
admit_same seen s =
    if is_refresh seen s
    then admitted_state_outputs (observe seen s) (record {
      incarnation = s.incarnation;
      head = s.head;
      base = seen.base;
      policy = seen.policy;
      relation = refreshed;
      lineage = s.lineage;
    })
    else life_state s ∷ []

abbrev is_confirmed : HeadSeen → LifeState → Bool
is_confirmed seen s = not (s.expected == "") && s.expected == seen.head

abbrev relation_of : HeadSeen → LifeState → HeadRelation
relation_of seen s =
    if is_confirmed seen s then confirmed else if s.head == "" then new else superseded

-- another head than the one that lifecycle stands on
admit_other : HeadSeen → LifeState → List Mail
unfolding admitted_state_outputs
admit_other seen s =
    let lineage = if is_confirmed seen s then s.lineage else "" in
    admitted_state_outputs
      (record {
        phase = running;
        incarnation = s.incarnation + 1;
        head = seen.head;
        base = seen.base;
        mergeable = seen.mergeable;
        policy = seen.policy;
        expected = "";
        expected_op = "";
        lineage = lineage;
        reminder_delay_s = s.reminder_delay_s;
        strict_base = seen.strict_base;
        base_current = seen.base_current;
      })
      (record {
        incarnation = s.incarnation + 1;
        head = seen.head;
        base = seen.base;
        policy = seen.policy;
        relation = relation_of seen s;
        lineage = lineage;
      })

-- `_admit_head`
pub admit_head : HeadSeen → LifeState → List Mail
unfolding admit_same admit_other
admit_head seen s =
    if phase_eq s.phase terminal
    then life_state s ∷ []
    else if phase_eq s.phase quiescent
    then life_state (record (observe seen s) { head = seen.head }) ∷ []
    else if seen.head == s.head
    then admit_same seen s
    else admit_other seen s

-- `_admit_draft`
pub admit_draft : LifeState → List Mail
admit_draft s =
    if not (phase_eq s.phase running)
    then life_state s ∷ []
    else let quiet = record s { phase = quiescent } in
      life_state quiet
      ∷ ready_state_facts (state_fact quiet)
      ∷ dash_facts (state (state_fact quiet))
      ∷ rem_pauses (record { incarnation = quiet.incarnation; head = quiet.head; reason = "draft" })
      ∷ []

-- `_admit_ready`
pub admit_ready : LifeState → List Mail
unfolding admitted_state_outputs
admit_ready s =
    if not (phase_eq s.phase quiescent)
    then life_state s ∷ []
    else let r = record s {
      phase = running;
      incarnation = s.incarnation + 1;
      expected = "";
      expected_op = "";
      lineage = "";
    } in
      admitted_state_outputs r (record {
        incarnation = r.incarnation;
        head = r.head;
        base = r.base;
        policy = r.policy;
        relation = resumed;
        lineage = "";
      })

-- `_admit_close`
pub admit_close : CloseSeen → LifeState → List Mail
admit_close seen s =
    if phase_eq s.phase terminal
    then life_state s ∷ []
    else let close : CloseFact = record { reason = seen.reason } in
      life_state (record s { phase = terminal })
      ∷ review_closed close
      ∷ ci_closed close
      ∷ esc_closed close
      ∷ mut_closed close
      ∷ dash_closed close
      ∷ rem_closed close
      ∷ ready_closed close
      ∷ []

-- `_admit_comment`
pub admit_comment : CommentSeen → LifeState → List Mail
admit_comment seen s =
    life_state s
    ∷ conv_intents (record {
      id = seen.id;
      kind = seen.kind;
      arg = seen.arg;
      authorized = seen.authorized;
      phase = s.phase;
      provisional = not (s.expected == "");
      incarnation = s.incarnation;
      head = s.head;
      base = s.base;
      policy = s.policy;
    })
    ∷ []

-- `_admit_human`
pub admit_human : HumanSeen → LifeState → List Mail
admit_human seen s =
    if phase_eq s.phase terminal
    then life_state s ∷ []
    else let fact : HumanFact = record {
      incarnation = s.incarnation;
      approval = seen.approval;
      changes_requested = seen.changes_requested;
      unresolved = seen.unresolved;
    } in
      life_state s ∷ ready_human_facts fact ∷ dash_facts (human fact) ∷ []

-- `_admit_runs`
pub admit_runs : RunSeen → LifeState → List Mail
admit_runs seen s =
    if not (phase_eq s.phase running)
    then life_state s ∷ []
    else life_state s
      ∷ ci_runs (record {
        incarnation = s.incarnation;
        head = seen.head;
        run_id = seen.run_id;
        attempt = seen.attempt;
        conclusion = seen.conclusion;
        fingerprint = seen.fingerprint;
      })
      ∷ []

-- `_note_provisional`
pub note_provisional : ProvisionalHead → LifeState → List Mail
note_provisional note s =
    if not (phase_eq s.phase running) || not (s.head == note.from_head)
    then life_state s ∷ []
    else life_state
        (record s { expected = note.expected; expected_op = note.op; lineage = note.lineage })
      ∷ []

-- One token of the loop's mailboxes.
pub data LifeEvent : Type 0 where
  head_seen : HeadSeen → LifeEvent
  draft_seen ready_seen : LifeEvent
  close_seen : CloseSeen → LifeEvent
  comment_seen : CommentSeen → LifeEvent
  human_seen : HumanSeen → LifeEvent
  run_seen : RunSeen → LifeEvent
  provisional_head : ProvisionalHead → LifeEvent

-- The transition that a token is bound to.
unfoldable pub fold : LifeEvent → LifeState → List Mail
unfolding admit_head admit_draft admit_ready admit_close admit_comment admit_human admit_runs
    note_provisional
fold (head_seen e) s = admit_head e s
fold draft_seen s = admit_draft s
fold ready_seen s = admit_ready s
fold (close_seen e) s = admit_close e s
fold (comment_seen e) s = admit_comment e s
fold (human_seen e) s = admit_human e s
fold (run_seen e) s = admit_runs e s
fold (provisional_head e) s = note_provisional e s
