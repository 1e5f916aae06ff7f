-- ===== src/Review/Folds.antt =====
-- The folds of the review loop.
use hamsterdan.Base.{
  ℕ, ◌+◌, String, Bool, true, false, not, ◌&&◌, Option, none, some, List, [], ◌∷◌, ◌++◌, ◌==◌, eqb,
  if◌then◌else◌,
}
use hamsterdan.Colors.{
  ReviewStatus, is_refreshed, mem_text, HeadWork, Finding, PubPhase, PubRecord, held, ReviewMemory,
  RoundOpen, AgentReview, RoundMoved, RoundUnable, RoundDeferred, RoundWake, Publishable,
  PublicationDeferred, ReviewFact, review_status, Mail, dash_facts, ready_review_facts,
  review_memory, review_round, review_publishable,
}
use hamsterdan.Review.Identity.{operation, findings_operation}
use hamsterdan.Review.Custody.{live, status_of}

-- the pending descriptor of `_publishable`
abbrev pub pending_record : String → String → String → String → ℕ → List Finding → PubRecord
pending_record op head base policy incarnation fs = record {
  phase = PubPhase.pending;
  effect = op;
  op = op;
  head = head;
  base = base;
  policy = policy;
  incarnation = incarnation;
  findings = fs;
  refusal = none;
  reason = none;
  was = none;
}

-- `_publishable`, under the effect identity
abbrev pub publishable :
    String → String → String → String → ℕ → List Finding → ReviewMemory → Publishable
publishable op head base policy incarnation fs mem = record {
  head = head;
  base = base;
  policy = policy;
  incarnation = incarnation;
  findings = fs;
  effect = op;
  op = op;
  mem = record mem {
    provisional = [];
    publication = held (pending_record op head base policy incarnation fs);
  };
}

abbrev pub is_nil : List Finding → Bool
is_nil [] = true
is_nil (_ ∷ _) = false

-- the refresh branch of `_start`
unfoldable pub start_refreshed : (String → ℕ → String) → HeadWork → ReviewMemory → List Mail
unfolding findings_operation
start_refreshed digest work mem =
    let fs = live mem.provisional mem.dismissed in
    if is_nil fs
    then review_memory mem ∷ []
    else review_publishable (
        publishable (findings_operation digest work.head work.incarnation) work.head work.base
          work.policy work.incarnation fs mem)
      ∷ []

-- the round of a head
abbrev pub round_open : HeadWork → ReviewMemory → String → RoundOpen
round_open work mem op = record {
  operation = op;
  head = work.head;
  base = work.base;
  policy = work.policy;
  incarnation = work.incarnation;
  prior_findings = if is_nil mem.provisional then mem.findings else mem.provisional;
  prior_lineage = mem.lineage;
  mem = record mem {
    head = work.head;
    incarnation = work.incarnation;
    status = ReviewStatus.pending;
  };
  attempt = 1;
}

abbrev pub open_round : HeadWork → ReviewMemory → Option String → Option (List Mail)
open_round work mem none = none
open_round work mem (some op) = some (review_round (round_open work mem op) ∷ [])

-- `_start`
unfoldable pub start : (String → ℕ → String) → HeadWork → ReviewMemory → Option (List Mail)
unfolding start_refreshed operation
start digest work mem =
    if is_refreshed work.relation
    then some (start_refreshed digest work mem)
    else open_round work mem (operation mem.subject work.head work.incarnation)

-- `reviewed` with a head that completed a round
abbrev pub with_reviewed : String → List String → List String
with_reviewed head heads = if mem_text head heads then heads else heads ++ head ∷ []

-- the memory of a judged round
abbrev pub judged : AgentReview → ReviewMemory
judged out = record out.mem {
  reviewed = with_reviewed out.head out.mem.reviewed;
  findings = out.findings;
  lineage = out.lineage;
  status = status_of out.findings out.mem.dismissed;
}

-- `_judge`
unfoldable pub judge : (String → ℕ → String) → AgentReview → List Mail
unfolding findings_operation
judge digest out =
    review_publishable (
      publishable (findings_operation digest out.head out.incarnation) out.head out.base out.policy
        out.incarnation (live out.findings out.mem.dismissed) (judged out))
    ∷ []

-- `_unable`
unfoldable pub unable : RoundUnable → List Mail
unable out =
    let fact : ReviewFact = record {
      incarnation = out.incarnation;
      head = out.head;
      status = ReviewStatus.unable;
      category = some out.category;
    } in
    review_memory (record out.mem {
      reviewed = with_reviewed out.head out.mem.reviewed;
      status = ReviewStatus.unable;
    })
    ∷ ready_review_facts fact
    ∷ dash_facts (review_status fact)
    ∷ []

-- `_round_moved`
unfoldable pub round_moved : RoundMoved → List Mail
round_moved out = review_memory out.mem ∷ []

-- the wake is the one that the deferred token waits for
abbrev pub wakes : RoundWake → String → ℕ → String → Bool
wakes wake operation attempt blocker =
    wake.operation == operation && eqb wake.attempt attempt && wake.blocker == blocker

-- `_wake_deferred`: `none` is the ValueError of another wake
unfoldable pub wake_deferred : RoundDeferred → RoundWake → Option (List Mail)
wake_deferred d wake =
    if not (wakes wake d.operation d.attempt d.blocker)
    then none
    else some (
        review_round (record {
          operation = d.operation;
          head = d.head;
          base = d.base;
          policy = d.policy;
          incarnation = d.incarnation;
          prior_findings = d.prior_findings;
          prior_lineage = d.prior_lineage;
          mem = d.mem;
          attempt = d.attempt + 1;
        })
        ∷ [])

-- `_wake_publication`
unfoldable pub wake_publication : PublicationDeferred → RoundWake → Option (List Mail)
wake_publication d wake =
    if not (wakes wake d.operation d.attempt d.blocker)
    then none
    else some (
        review_publishable (record {
          head = d.head;
          base = d.base;
          policy = d.policy;
          incarnation = d.incarnation;
          findings = d.findings;
          effect = d.effect;
          op = d.operation;
          mem = d.mem;
        })
        ∷ [])
