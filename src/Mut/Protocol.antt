-- ===== src/Mut/Protocol.antt =====
-- The mutation loop's baton stands on one of three places: at rest, in flight as the git gate's
-- work, or ended. The gate answers a work with one of four terminals that echo it
-- (src/hamsterdan/host/v5/mutation.py, `_pushed`, `_moved`, `_declined`, `_fault`).
use hamsterdan.Base.{ℕ, String, List, [], ◌∷◌, ◌++◌}
use hamsterdan.Colors.{
  Phase, MutState, MutationRequest, RecoverFact, CloseFact, MutWork, Pushed, MovedM, FaultM,
  DeclinedM, MutEnded, Mail, mut_state, mut_work, mut_done,
}
use hamsterdan.Mut.{
  start, fold_pushed, fold_moved, fold_declined, fold_fault, recover, end, drain_recover, drain,
}

pub data MutPlace : Type 0 where
  at_rest : MutState → MutPlace
  in_flight : MutWork → MutPlace
  ended : MutEnded → MutPlace

-- CurrentClaim of the host: the authority that the gate reads
pub record CurrentClaim : Type 0 where
  pub phase : Phase
  pub incarnation : ℕ
  pub head : String
  pub base : String
  pub policy : String

pub data MutEvent : Type 0 where
  requested : MutationRequest → MutEvent
  recovered : RecoverFact → MutEvent
  closed : CloseFact → MutEvent
  pushed : String → MutEvent
  moved : CurrentClaim → MutEvent
  declined : String → String → MutEvent
  faulted : String → MutEvent

-- `_pushed`
abbrev pub pushed_of : MutWork → String → Pushed
pushed_of w head = record {
  op = w.op;
  op_key = w.op_key;
  head = w.head;
  new_head = head;
  incarnation = w.incarnation;
  lineage = w.lineage;
}

-- `_moved`
abbrev pub moved_of : MutWork → CurrentClaim → MovedM
moved_of w current = record {
  op = w.op;
  op_key = w.op_key;
  head = w.head;
  incarnation = w.incarnation;
  observed = current.head;
  observed_base = current.base;
  observed_policy = current.policy;
  observed_incarnation = current.incarnation;
  observed_phase = current.phase;
}

-- `_declined`
abbrev pub declined_of : MutWork → String → String → DeclinedM
declined_of w category reason = record {
  op = w.op;
  op_key = w.op_key;
  head = w.head;
  incarnation = w.incarnation;
  category = category;
  reason = reason;
}

-- `_fault`
abbrev pub fault_of : MutWork → String → FaultM
fault_of w reason = record {
  op = w.op;
  op_key = w.op_key;
  head = w.head;
  base = w.base;
  policy = w.policy;
  reason = reason;
  incarnation = w.incarnation;
  kind = w.kind;
  instruction = w.instruction;
  run_id = w.run_id;
  attempt = w.attempt;
}

-- where the tokens of a transition put the baton
abbrev pub placed : MutPlace → List Mail → MutPlace
placed s [] = s
placed s (mut_state st ∷ ms) = at_rest st
placed s (mut_work w ∷ ms) = in_flight w
placed s (mut_done e ∷ ms) = ended e
placed s (_ ∷ ms) = placed s ms

-- The tokens of the transition that an event enables; an event whose other token is not there
-- waits, and nothing is mailed.
unfoldable pub emit : MutPlace → MutEvent → List Mail
unfolding start fold_pushed fold_moved fold_declined fold_fault recover end drain_recover drain
emit (at_rest st) (requested q) = start q st
emit (at_rest st) (recovered r) = recover r st
emit (at_rest st) (closed c) = end c st
emit (in_flight w) (pushed head) = fold_pushed (pushed_of w head)
emit (in_flight w) (moved current) = fold_moved (moved_of w current)
emit (in_flight w) (declined category reason) = fold_declined (declined_of w category reason)
emit (in_flight w) (faulted reason) = fold_fault (fault_of w reason)
emit (ended e) (requested q) = drain q e
emit (ended e) (recovered r) = drain_recover r e
emit _ _ = []

-- the state after a run
unfoldable pub final : MutPlace → List MutEvent → MutPlace
final s [] = s
final s (e ∷ es) = final (placed s (emit s e)) es

-- all that a run mails
unfoldable pub mailed : MutPlace → List MutEvent → List Mail
mailed s [] = []
mailed s (e ∷ es) = emit s e ++ mailed (placed s (emit s e)) es
