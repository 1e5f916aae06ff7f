-- ===== src/Ready/Protocol.antt =====
-- The places of the readiness loop: the snapshot or the terminal record, the announcements that the
-- gate has in hand, those deferred, and the candidates. The announce gate answers a request with a
-- terminal that echoes it (src/hamsterdan/host/v5/gates.py).
use hamsterdan.Base.{ℕ, zero, suc, ◌+◌, String, Option, none, some, List, [], ◌∷◌, ◌++◌}
use hamsterdan.Colors.{
  Snapshot, AnnounceReq, StateFact, ChecksFact, ReviewFact, FindingsFact, HumanFact,
  MutationPendingFact, MutationSettledFact, FaultRaisedFact, FaultClearedFact, RecoverFact,
  CloseFact, ALanded, ADeferred, AWake, ABlocked, AMoved, AFault, ReadyEnded, Mail, ready_snap,
  ready_candidate, ready_announce_req, ready_deferred, ready_done,
}
use hamsterdan.Ready.{
  seed, apply_state, apply_checks, apply_review, apply_findings, apply_human,
  apply_mutation_pending, apply_mutation_settled, apply_fault_raised, apply_fault_cleared,
  fold_applied, authorize, fold_alanded, fold_adeferred, wake_deferred, fold_ablocked, fold_amoved,
  fold_afault, recover, end, drain,
}

pub data Seat : Type 0 where
  live : Snapshot → Seat
  ended : ReadyEnded → Seat

pub record ReadyState : Type 0 where
  pub seat : Seat
  pub out : List AnnounceReq
  pub deferred : List ADeferred
  pub candidates : ℕ

abbrev pub newborn : ReadyState
newborn = record { seat = live seed; out = []; deferred = []; candidates = 0 }

-- a fact of a sibling loop
pub data Fact : Type 0 where
  state : StateFact → Fact
  checks : ChecksFact → Fact
  review : ReviewFact → Fact
  findings : FindingsFact → Fact
  human : HumanFact → Fact
  mutation_pending : MutationPendingFact → Fact
  mutation_settled : MutationSettledFact → Fact
  fault_raised : FaultRaisedFact → Fact
  fault_cleared : FaultClearedFact → Fact

-- what the gate answers to a request
pub data Answer : Type 0 where
  landed : Answer
  deferred : String → Answer
  blocked : Answer
  moved : AMoved → Answer
  faulted : String → Answer

pub data ReadyEvent : Type 0 where
  folded : Fact → ReadyEvent
  authorized : ReadyEvent
  answered : Answer → ReadyEvent
  woken : AWake → ReadyEvent
  recovered : RecoverFact → ReadyEvent
  closed : CloseFact → ReadyEvent

-- The `_apply_` function of a fact's color.
unfoldable pub apply : Snapshot → Fact → Option Snapshot
unfolding apply_state apply_checks apply_review apply_findings apply_human apply_mutation_pending
    apply_mutation_settled apply_fault_raised apply_fault_cleared
apply s (state f) = apply_state s f
apply s (checks f) = apply_checks s f
apply s (review f) = apply_review s f
apply s (findings f) = apply_findings s f
apply s (human f) = apply_human s f
apply s (mutation_pending f) = apply_mutation_pending s f
apply s (mutation_settled f) = apply_mutation_settled s f
apply s (fault_raised f) = some (apply_fault_raised s f)
apply s (fault_cleared f) = some (apply_fault_cleared s f)

abbrev pub deferred_of : AnnounceReq → String → ADeferred
deferred_of r blocker = record {
  op = r.op;
  incarnation = r.incarnation;
  head = r.head;
  base = r.base;
  policy = r.policy;
  strict_base = r.strict_base;
  base_current = r.base_current;
  blocker = blocker;
}

abbrev pub landed_of : AnnounceReq → ALanded
landed_of r = record { incarnation = r.incarnation; head = r.head }

abbrev pub blocked_of : AnnounceReq → ABlocked
blocked_of r = record {
  incarnation = r.incarnation;
  head = r.head;
  base = r.base;
  policy = r.policy;
}

abbrev pub fault_of : AnnounceReq → String → AFault
fault_of r reason = record { op = r.op; incarnation = r.incarnation; reason = reason }

-- the fold of the gate's answer to the request `r`
unfoldable pub fold_answer : AnnounceReq → Answer → Snapshot → Option (List Mail)
unfolding fold_alanded fold_adeferred fold_ablocked fold_amoved fold_afault
fold_answer r landed s = some (fold_alanded (landed_of r) s)
fold_answer r (deferred blocker) s = fold_adeferred (deferred_of r blocker) s
fold_answer r blocked s = some (fold_ablocked (blocked_of r) s)
fold_answer r (moved m) s = some (fold_amoved m s)
fold_answer r (faulted reason) s = some (fold_afault (fault_of r reason) s)

-- a state without the tokens that a transition consumes, and what the transition mails
abbrev pub Fired : Type 0
Fired = Option (ReadyState × List Mail)

abbrev fired : ReadyState → Option (List Mail) → Fired
fired s none = none
fired s (some ms) = some (s, ms)

-- an event whose other tokens are not there waits
unfoldable pub fire_live : ReadyState → Snapshot → ReadyEvent → Fired
unfolding fold_applied apply authorize fold_answer wake_deferred recover end
fire_live w s (folded f) = some (w, fold_applied s (apply s f))
fire_live w s authorized = elim w.candidates [
  | zero ↦ some (w, [])
  | suc n ↦ some (record w { candidates = n }, authorize s)
]
fire_live w s (answered a) = elim w.out [
  | [] ↦ some (w, [])
  | r ∷ rest ↦ fired (record w { out = rest }) (fold_answer r a s)
]
fire_live w s (woken k) = elim w.deferred [
  | [] ↦ some (w, [])
  | d ∷ rest ↦ fired (record w { deferred = rest }) (wake_deferred d k s)
]
fire_live w s (recovered r) = some (w, recover r s)
fire_live w s (closed c) = some (w, end c s)

unfoldable pub fire_ended : ReadyState → ReadyEnded → ReadyEvent → Fired
unfolding drain
fire_ended w e authorized = elim w.candidates [
  | zero ↦ some (w, [])
  | suc n ↦ some (record w { candidates = n }, drain e)
]
fire_ended w e (folded f) = some (w, drain e)
fire_ended w e (woken k) = some (w, drain e)
fire_ended w e (recovered r) = some (w, drain e)
fire_ended w e (answered a) = some (w, [])
fire_ended w e (closed c) = some (w, [])

unfoldable pub fire_seat : ReadyState → Seat → ReadyEvent → Fired
unfolding fire_live fire_ended
fire_seat w (live s) e = fire_live w s e
fire_seat w (ended x) e = fire_ended w x e

unfoldable pub fire : ReadyState → ReadyEvent → Fired
unfolding fire_seat
fire w e = fire_seat w w.seat e

-- the tokens of a transition, put on their places
abbrev pub put_mail : ReadyState → List Mail → ReadyState
put_mail w [] = w
put_mail w (ready_snap s ∷ ms) = put_mail (record w { seat = live s }) ms
put_mail w (ready_done e ∷ ms) = put_mail (record w { seat = ended e }) ms
put_mail w (ready_announce_req r ∷ ms) = put_mail (record w { out = r ∷ w.out }) ms
put_mail w (ready_deferred d ∷ ms) = put_mail (record w { deferred = d ∷ w.deferred }) ms
put_mail w (ready_candidate c ∷ ms) = put_mail (record w { candidates = w.candidates + 1 }) ms
put_mail w (_ ∷ ms) = put_mail w ms

-- the state after a run, and all that the run mails
unfoldable pub run : ReadyState → List ReadyEvent → Fired
run w [] = some (w, [])
run w (e ∷ es) = elim (fire w e) [
  | none ↦ none
  | some (v, ms) ↦ elim (run (put_mail v ms) es) [ none ↦ none | some r ↦ some (r.0, ms ++ r.1) ]
]
