-- ===== src/Conv.antt =====
-- The conversation loop (src/hamsterdan/readiness/net_v5/conversation.py): every comment is answered
-- once, and routed to the loop that owns what it asks for.
pub mod Protocol
pub mod Commitment
pub mod Doors
pub mod Wiring
mod Examples
use hamsterdan.Base.{
  String, Bool, true, false, not, ◌&&◌, ◌||◌, Option, none, some, List, [], ◌∷◌, ◌++◌, ◌==◌,
  is_some, if◌then◌else◌, ◌⧺◌, get, put, without, strip, before_colon,
}
use hamsterdan.Colors.{
  phase_eq, terminal, running, IntentFact, MutationRequest, SnoozeMode, DashFact, reply_fault,
  reply_resolved, RecoverFact, ReplyHeld, ConvMemory, Replied, ReplyBlocked, ReplyFault, Mail,
  mem_text, mut_requests, dash_facts, rem_snoozes, rem_recover, review_dismiss, review_recover,
  esc_recover, mut_recover, ready_recover, dash_recover, conv_recover, conv_memory, conv_reply_req,
}

-- A grade with the answer to an intent that is accepted: the keys of `_NOTED_TEXT` are the notes of
-- `_GRADES`, those of `_STARTED_TEXT` its committing kinds.
pub data Grade : Type 0 where
  immediate : Grade
  note : String → Grade
  committing : String → Grade

-- `_GRADES`, `_NOTED_TEXT` and `_STARTED_TEXT`
abbrev pub grade : String → Option Grade
grade kind =
    if kind == "reply" || kind == "status"
    then some immediate
    else if kind == "acknowledge" || kind == "reassign"
    then some (note "Noted.")
    else if kind == "dismiss"
    then some (note "Noted — that finding is dismissed.")
    else if kind == "defer"
    then some (note "Noted — that finding is set aside.")
    else if kind == "snooze"
    then some (note "Noted — reminders are snoozed.")
    else if kind == "resume"
    then some (note "Noted — reminders are back on.")
    else if kind == "recover_publication"
    then some (note "On it — I'm retrying that publication now.")
    else if kind == "change"
    then some (committing "On it — I'm making that change and will push to this PR.")
    else if kind == "update_base"
    then some (committing "On it — I'm updating this branch from its base.")
    else if kind == "resolve_conflict"
    then some (committing "On it — I'm resolving the conflict and will push the result.")
    else none

abbrev pub no_change_text : String
no_change_text = "I can't act on that — nothing in the workflow changed."

abbrev pub pure_fallback_text : String
pure_fallback_text = "Nothing new to report — the summary comment is current."

abbrev pub terminal_text : String
terminal_text = "This PR is closed — nothing changes here anymore."

abbrev pub provisional_text : String
provisional_text = "My own update is still landing — ask again once it settles."

abbrev pub quiescent_text : String
quiescent_text = "This PR is a draft — I hold changes until it's ready for review."

abbrev pub unknown_recovery_text : String
unknown_recovery_text = "I don't recognize that operation, so I can't recover it."

-- `_RECOVER_ROUTES`: the mailbox and the target
abbrev pub recover_route : String → Option ((RecoverFact → Mail) × String)
recover_route prefix =
    if prefix == "rerun"
    then some (esc_recover, "esc")
    else if prefix == "findings"
    then some (review_recover, "review")
    else if prefix == "reply"
    then some (conv_recover, "conversation")
    else if prefix == "reminder"
    then some (rem_recover, "reminder")
    else if prefix == "dash"
    then some (dash_recover, "dashboard")
    else if prefix == "ready"
    then some (ready_recover, "readiness")
    else if prefix == "push"
    then some (mut_recover, "mutation")
    else none

-- `_note_routes`
abbrev pub note_routes : IntentFact → List Mail
note_routes intent =
    if intent.kind == "dismiss"
    then review_dismiss (record { finding_id = intent.arg }) ∷ []
    else if intent.kind == "snooze"
    then rem_snoozes (record { mode = SnoozeMode.snooze; arg = intent.arg }) ∷ []
    else if intent.kind == "resume"
    then rem_snoozes (record { mode = SnoozeMode.clear; arg = intent.arg }) ∷ []
    else if intent.kind == "defer"
    then review_dismiss (record { finding_id = intent.arg }) ∷ []
    else []

-- the mutation that a committing intent asks for
abbrev pub request_of : IntentFact → MutationRequest
request_of intent = record {
  op = intent.kind;
  rid = "comment:" ⧺ intent.id;
  head = intent.head;
  base = intent.base;
  policy = intent.policy;
  incarnation = intent.incarnation;
  source = "conversation";
  kind = intent.kind;
  instruction = intent.arg;
  run_id = 0;
  attempt = 0;
}

-- a text, and the facts for the sibling loops
abbrev pub Answer : Type 0
Answer = String × List Mail

-- the answer to a recovery, by the route found
abbrev pub answer_recovery : IntentFact → String → Option ((RecoverFact → Mail) × String) → Answer
answer_recovery intent text none = (unknown_recovery_text, [])
answer_recovery intent text (some r) = (text, r.0 (record { target = r.1; op = intent.arg }) ∷ [])

-- the answer to an intent of a grade
unfoldable pub answer_grade : IntentFact → Option Grade → Answer
unfolding before_colon
answer_grade intent none = (no_change_text, [])
answer_grade intent (some immediate) =
    (if intent.arg == "" then pure_fallback_text else intent.arg, [])
answer_grade intent (some (note text)) =
    if phase_eq intent.phase terminal
    then (terminal_text, [])
    else if intent.kind == "recover_publication"
    then answer_recovery intent text (recover_route (before_colon intent.arg))
    else (text, note_routes intent)
answer_grade intent (some (committing text)) =
    if not (phase_eq intent.phase running)
    then (if phase_eq intent.phase terminal then terminal_text else quiescent_text, [])
    else if intent.provisional
    then (provisional_text, [])
    else (text, mut_requests (request_of intent) ∷ [])

unfoldable pub answer : IntentFact → Answer
unfolding answer_grade
answer intent =
    if not intent.authorized then (no_change_text, []) else answer_grade intent (grade intent.kind)

-- the memory of a comment that is answered
abbrev pub served_with : ConvMemory → String → String → ConvMemory
served_with mem id text = record mem {
  served = mem.served ++ id ∷ [];
  pending = put id text mem.pending;
}

-- `_classify`
unfoldable pub classify : IntentFact → ConvMemory → List Mail
unfolding answer put
classify intent mem =
    if mem_text intent.id mem.served
    then conv_memory mem ∷ []
    else let a = answer intent in
      conv_memory (served_with mem intent.id a.0)
      ∷ conv_reply_req (record { id = intent.id; text = a.0 })
      ∷ a.1

-- `_fold_replied`
unfoldable pub fold_replied : Replied → ConvMemory → List Mail
unfolding get without
fold_replied out mem =
    conv_memory (record mem {
      pending = without out.id mem.pending;
      blocked = without out.id mem.blocked;
      faulted = without out.id mem.faulted;
    })
    ∷ (if is_some (get out.id mem.faulted)
        then dash_facts (reply_resolved ("reply:" ⧺ out.id)) ∷ []
        else [])

-- `_fold_blocked`
unfoldable pub fold_blocked : ReplyBlocked → ConvMemory → List Mail
unfolding put without
fold_blocked out mem =
    conv_memory (record mem {
      pending = without out.id mem.pending;
      blocked = put out.id out.text mem.blocked;
    })
    ∷ []

-- `_fold_fault`
unfoldable pub fold_fault : ReplyFault → ConvMemory → List Mail
unfolding put without
fold_fault out mem =
    conv_memory (record mem {
      pending = without out.id mem.pending;
      faulted = put out.id (record { text = out.text; reason = out.reason }) mem.faulted;
    })
    ∷ dash_facts (reply_fault ("reply:" ⧺ out.id) out.reason)
    ∷ []

-- the text that a reply retains
abbrev pub retained : String → ConvMemory → Option String
retained id mem = elim (get id mem.blocked) [
  | some text ↦ some text
  | none ↦ elim (get id mem.faulted) [ some held ↦ some held.text | none ↦ none ]
]

-- a reply in flight again, with the text retained
abbrev pub reissue : String → ConvMemory → Option String → List Mail
reissue id mem none = conv_memory mem ∷ []
reissue id mem (some text) =
    conv_memory (record mem { pending = put id text mem.pending; blocked = without id mem.blocked })
    ∷ conv_reply_req (record { id = id; text = text })
    ∷ []

-- `_recover`, for the identity behind the prefix
unfoldable pub recover_reply : RecoverFact → ConvMemory → Option String → List Mail
unfolding get put without
recover_reply fact mem none = conv_memory mem ∷ []
recover_reply fact mem (some id) =
    if not (fact.target == "conversation") || is_some (get id mem.pending)
    then conv_memory mem ∷ []
    else reissue id mem (retained id mem)

-- `_recover`
unfoldable pub recover : RecoverFact → ConvMemory → List Mail
unfolding recover_reply strip
recover fact mem = recover_reply fact mem (strip "reply:" fact.op)

-- `seed`
abbrev pub seed : ConvMemory
seed = record { served = []; pending = []; blocked = []; faulted = [] }
