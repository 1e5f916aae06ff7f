-- ===== src/Review/Protocol.antt =====
-- Runs of the review loop. The baton rests, is in a round or a publication, waits deferred for a wake,
-- or has ended. The agent gate and the publish gate answer with the terminals that
-- src/hamsterdan/host/v5/review.py and gates.py build from the token in hand.
use hamsterdan.Base.{ℕ, String, Option, none, some, List, [], ◌∷◌, ◌++◌, Dict}
use hamsterdan.Colors.{
  HeadWork, CloseFact, RecoverFact, DismissFact, Finding, Refusal, ReviewMemory, RoundOpen,
  AgentReview, RoundMoved, RoundUnable, RoundDeferred, RoundWake, Publishable, PublicationDeferred,
  ReviewLanded, ReviewMoved, ReviewBlocked, ReviewEnded, Mail, review_memory, review_round,
  review_publishable, review_done,
}
use hamsterdan.Mut.Protocol.{CurrentClaim}
use hamsterdan.Review.Folds.{start, judge, unable, round_moved, wake_deferred, wake_publication}
use hamsterdan.Review.Settle.{
  fold_landed, fold_moved, fold_blocked, fold_fault, recover, dismiss, end, end_deferred,
  end_publication_deferred, drain,
}

pub data ReviewPlace : Type 0 where
  at_rest : ReviewMemory → ReviewPlace
  in_round : RoundOpen → ReviewPlace
  waiting : RoundDeferred → ReviewPlace
  publishing : Publishable → ReviewPlace
  put_off : PublicationDeferred → ReviewPlace
  ended : ReviewEnded → ReviewPlace

-- what the agent gate answers
pub data RoundAnswer : Type 0 where
  reviewed : List Finding → List (Dict String) → RoundAnswer
  deferred : String → RoundAnswer
  moved : CurrentClaim → RoundAnswer
  unable_to : String → RoundAnswer

-- what the publish gate answers
pub data PublishAnswer : Type 0 where
  landed : PublishAnswer
  deferred : String → PublishAnswer
  moved : CurrentClaim → PublishAnswer
  blocked : Refusal → PublishAnswer
  faulted : String → PublishAnswer

pub data ReviewEvent : Type 0 where
  headed : HeadWork → ReviewEvent
  recovered : RecoverFact → ReviewEvent
  dismissed : DismissFact → ReviewEvent
  woken : RoundWake → ReviewEvent
  closed : CloseFact → ReviewEvent
  answered : RoundAnswer → ReviewEvent
  published : PublishAnswer → ReviewEvent

-- the place and the mail of a transition
abbrev pub Fired : Type 0
Fired = ReviewPlace × List Mail

-- where the tokens of a transition put the baton
abbrev pub placed : ReviewPlace → List Mail → ReviewPlace
placed p [] = p
placed p (review_memory m ∷ ms) = at_rest m
placed p (review_round r ∷ ms) = in_round r
placed p (review_publishable q ∷ ms) = publishing q
placed p (review_done e ∷ ms) = ended e
placed p (_ ∷ ms) = placed p ms

abbrev pub fired : ReviewPlace → List Mail → Option Fired
fired p ms = some (placed p ms, ms)

abbrev pub fired_or : ReviewPlace → Option (List Mail) → Option Fired
fired_or p none = none
fired_or p (some ms) = fired p ms

abbrev pub review_of : RoundOpen → List Finding → List (Dict String) → AgentReview
review_of r fs lineage = record {
  head = r.head;
  base = r.base;
  policy = r.policy;
  incarnation = r.incarnation;
  findings = fs;
  lineage = lineage;
  mem = r.mem;
}

abbrev pub round_deferred_of : RoundOpen → String → RoundDeferred
round_deferred_of r blocker = record {
  operation = r.operation;
  head = r.head;
  base = r.base;
  policy = r.policy;
  incarnation = r.incarnation;
  prior_findings = r.prior_findings;
  prior_lineage = r.prior_lineage;
  mem = r.mem;
  attempt = r.attempt;
  blocker = blocker;
}

abbrev pub round_moved_of : RoundOpen → CurrentClaim → RoundMoved
round_moved_of r current = record {
  head = r.head;
  incarnation = r.incarnation;
  observed = current.head;
  observed_base = current.base;
  observed_policy = current.policy;
  observed_incarnation = current.incarnation;
  observed_phase = current.phase;
  mem = r.mem;
}

abbrev pub unable_of : RoundOpen → String → RoundUnable
unable_of r category = record {
  head = r.head;
  incarnation = r.incarnation;
  category = category;
  mem = r.mem;
}

-- the transition after the agent gate's terminal; a deferred round waits
unfoldable pub on_answer : (String → ℕ → String) → RoundOpen → RoundAnswer → Fired
unfolding judge unable round_moved
on_answer digest r (reviewed fs lineage) =
    let ms = judge digest (review_of r fs lineage) in (placed (in_round r) ms, ms)
on_answer digest r (RoundAnswer.deferred blocker) = (waiting (round_deferred_of r blocker), [])
on_answer digest r (RoundAnswer.moved current) =
    let ms = round_moved (round_moved_of r current) in (placed (in_round r) ms, ms)
on_answer digest r (unable_to category) =
    let ms = unable (unable_of r category) in (placed (in_round r) ms, ms)

abbrev pub landed_of : Publishable → ReviewLanded
landed_of q = record {
  head = q.head;
  incarnation = q.incarnation;
  findings = q.findings;
  effect = q.effect;
  mem = q.mem;
}

abbrev pub publication_deferred_of : Publishable → String → PublicationDeferred
publication_deferred_of q blocker = record {
  operation = q.op;
  head = q.head;
  base = q.base;
  policy = q.policy;
  incarnation = q.incarnation;
  findings = q.findings;
  effect = q.effect;
  mem = q.mem;
  attempt = 1;
  blocker = blocker;
}

abbrev pub moved_of : Publishable → CurrentClaim → ReviewMoved
moved_of q current = record {
  head = q.head;
  observed = current.head;
  observed_base = current.base;
  observed_policy = current.policy;
  observed_incarnation = current.incarnation;
  observed_phase = current.phase;
  findings = q.findings;
  mem = q.mem;
}

abbrev pub blocked_of : Publishable → Refusal → ReviewBlocked
blocked_of q refusal = record {
  head = q.head;
  base = q.base;
  policy = q.policy;
  incarnation = q.incarnation;
  findings = q.findings;
  effect = q.effect;
  op = q.op;
  refusal = refusal;
  mem = q.mem;
}

-- what the fold of the publish gate's terminal sends; a deferred publication waits
unfoldable pub on_publish : Publishable → PublishAnswer → Fired
unfolding fold_landed fold_moved fold_blocked fold_fault
on_publish q PublishAnswer.landed =
    let ms = fold_landed (landed_of q) in (placed (publishing q) ms, ms)
on_publish q (PublishAnswer.deferred blocker) = (put_off (publication_deferred_of q blocker), [])
on_publish q (PublishAnswer.moved current) =
    let ms = fold_moved (moved_of q current) in (placed (publishing q) ms, ms)
on_publish q (PublishAnswer.blocked refusal) =
    let ms = fold_blocked (blocked_of q refusal) in (placed (publishing q) ms, ms)
on_publish q (PublishAnswer.faulted reason) =
    let ms = fold_fault (record { reason = reason; mem = q.mem }) in (placed (publishing q) ms, ms)

-- The transition that an event enables. An event whose other token is not there waits; `none` is an
-- exception.
unfoldable pub fire : (String → ℕ → String) → ReviewPlace → ReviewEvent → Option Fired
unfolding start recover dismiss end on_answer on_publish wake_deferred end_deferred wake_publication
    end_publication_deferred drain
fire digest (at_rest m) (headed w) = fired_or (at_rest m) (start digest w m)
fire digest (at_rest m) (recovered r) = fired (at_rest m) (recover r m)
fire digest (at_rest m) (dismissed d) = fired (at_rest m) (dismiss d m)
fire digest (at_rest m) (closed c) = fired (at_rest m) (end c m)
fire digest (in_round r) (answered a) = some (on_answer digest r a)
fire digest (publishing q) (published a) = some (on_publish q a)
fire digest (waiting d) (woken w) = fired_or (waiting d) (wake_deferred d w)
fire digest (waiting d) (closed c) = fired (waiting d) (end_deferred c d)
fire digest (put_off d) (woken w) = fired_or (put_off d) (wake_publication d w)
fire digest (put_off d) (closed c) = fired (put_off d) (end_publication_deferred c d)
fire digest (ended e) (recovered r) = fired (ended e) (drain e)
fire digest (ended e) (dismissed d) = fired (ended e) (drain e)
fire digest (ended e) (woken w) = fired (ended e) (drain e)
fire digest p _ = some (p, [])

-- the place after a run, and all that it mails
unfoldable pub run : (String → ℕ → String) → ReviewPlace → List ReviewEvent → Option Fired
run digest p [] = some (p, [])
run digest p (e ∷ es) = elim (fire digest p e) [
  | none ↦ none
  | some (q, ms) ↦ elim (run digest q es) [ none ↦ none | some r ↦ some (r.0, ms ++ r.1) ]
]
