-- ===== src/Board/Facts.antt =====
-- `_Facts` of src/hamsterdan/readiness/net_v5/board.py: the latest fact of each concern, and the open
-- faults and pushes. A fact that is not there reads as the default that the source's `get` gives.
use hamsterdan.Base.{
  ℕ, String, Bool, true, false, ◌&&◌, Option, none, some, List, [], ◌∷◌, ◌++◌, ◌==◌, if◌then◌else◌,
  Dict, get, put, without,
}
use hamsterdan.Colors.{
  Phase, ChecksStatus, ReviewStatus, StateFact, ReviewFact, FindingsFact, HumanFact,
  MutationPendingFact, owner_text, DashFact, state, checks, human, mutation_pending,
  mutation_settled, fault_raised, fault_cleared, human_needed, announce_fault, reminder_fault,
  reply_fault, reply_resolved, review_status, review_findings,
}
use hamsterdan.Dash.{kind_of}
use hamsterdan.Host.Review.Request.{clip}

-- `_short`
abbrev pub short : String → String
unfolding clip
short sha = clip 7 sha

-- an open fault, by its key `(where, op)`
pub record Attention : Type 0 where
  pub owner : String
  pub op : String
  pub reason : String
  pub body : DashFact

pub record BoardFacts : Type 0 where
  pub latest : Dict DashFact
  pub faults : List Attention
  pub mutations : Dict MutationPendingFact
  pub human_needed : Option DashFact
  pub unparsed : List String

abbrev pub no_facts : BoardFacts
no_facts = record { latest = []; faults = []; mutations = []; human_needed = none; unparsed = [] }

abbrev pub attention : String → String → String → DashFact → Attention
attention owner op reason body = record { owner = owner; op = op; reason = reason; body = body }

abbrev is_same : Attention → Attention → Bool
is_same a b = a.owner == b.owner && a.op == b.op

-- `faults[key] = body`
unfoldable pub raise : Attention → List Attention → List Attention
raise a [] = a ∷ []
raise a (b ∷ bs) = if is_same b a then a ∷ bs else b ∷ raise a bs

-- `faults.pop(key, None)`
unfoldable pub drop : Attention → List Attention → List Attention
drop a [] = []
drop a (b ∷ bs) = let rest = drop a bs in if is_same b a then rest else b ∷ rest

-- the open faults after a fact; a reminder's fault has no `op`
unfoldable pub next_faults : DashFact → List Attention → List Attention
unfolding raise drop
next_faults (fault_raised f) as' =
    raise (attention (owner_text f.owner) f.op f.reason (fault_raised f)) as'
next_faults (fault_cleared f) as' =
    drop (attention (owner_text f.owner) f.op "" (fault_cleared f)) as'
next_faults (announce_fault op reason) as' =
    raise (attention "announce" op reason (announce_fault op reason)) as'
next_faults (reminder_fault reason) as' =
    raise (attention "reminder" "" reason (reminder_fault reason)) as'
next_faults (reply_fault op reason) as' =
    raise (attention "conversation" op reason (reply_fault op reason)) as'
next_faults (reply_resolved op) as' = drop (attention "conversation" op "" (reply_resolved op)) as'
next_faults _ as' = as'

unfoldable pub next_mutations : DashFact → Dict MutationPendingFact → Dict MutationPendingFact
unfolding put without
next_mutations (mutation_pending f) ms = put f.op_key f ms
next_mutations (mutation_settled f) ms = without f.body.op_key ms
next_mutations _ ms = ms

-- fresh evidence of the checks obsoletes the escalation
unfoldable pub next_human_needed : DashFact → Option DashFact → Option DashFact
next_human_needed (human_needed incarnation fingerprint head is_rerun) o =
    some (human_needed incarnation fingerprint head is_rerun)
next_human_needed (checks f) o = none
next_human_needed _ o = o

unfoldable pub take_fact : DashFact → BoardFacts → BoardFacts
unfolding next_faults next_mutations next_human_needed put
take_fact f facts = record {
  latest = put (kind_of f) f facts.latest;
  faults = next_faults f facts.faults;
  mutations = next_mutations f facts.mutations;
  human_needed = next_human_needed f facts.human_needed;
  unparsed = facts.unparsed;
}

abbrev pub take_entry : (String → Option DashFact) → String → BoardFacts → BoardFacts
unfolding take_fact
take_entry parse entry facts = elim (parse entry) [
  | none ↦ record facts { unparsed = facts.unparsed ++ entry ∷ [] }
  | some f ↦ take_fact f facts
]

-- `_Facts.__init__`, from the facts of the entries before
unfoldable pub distil : (String → Option DashFact) → List String → BoardFacts → BoardFacts
unfolding take_entry
distil parse [] facts = facts
distil parse (entry ∷ entries) facts = distil parse entries (take_entry parse entry facts)

abbrev as_state : Option DashFact → Option StateFact
as_state (some (state f)) = some f
as_state _ = none

abbrev as_checks : Option DashFact → ChecksStatus
as_checks (some (checks f)) = f.status
as_checks _ = ChecksStatus.pending

abbrev as_review : Option DashFact → Option ReviewFact
as_review (some (review_status f)) = some f
as_review _ = none

abbrev as_findings : Option DashFact → Option FindingsFact
as_findings (some (review_findings f)) = some f
as_findings _ = none

abbrev as_human : Option DashFact → Option HumanFact
as_human (some (human f)) = some f
as_human _ = none

-- `latest.get(kind, {})`
unfoldable pub state_of : BoardFacts → Option StateFact
unfolding get
state_of facts = as_state (get "state" facts.latest)

unfoldable pub checks_of : BoardFacts → ChecksStatus
unfolding get
checks_of facts = as_checks (get "checks" facts.latest)

unfoldable pub review_fact_of : BoardFacts → Option ReviewFact
unfolding get
review_fact_of facts = as_review (get "review" facts.latest)

unfoldable pub findings_of : BoardFacts → Option FindingsFact
unfolding get
findings_of facts = as_findings (get "findings" facts.latest)

unfoldable pub human_of : BoardFacts → Option HumanFact
unfolding get
human_of facts = as_human (get "human" facts.latest)

abbrev pub phase_from : Option StateFact → Option Phase
phase_from none = none
phase_from (some f) = some f.body.phase

abbrev pub phase_of : BoardFacts → Option Phase
phase_of facts = phase_from (state_of facts)

abbrev pub head_of : BoardFacts → String
head_of facts = elim (state_of facts) [ none ↦ "" | some f ↦ f.body.head ]

abbrev pub base_of : BoardFacts → String
base_of facts = elim (state_of facts) [ none ↦ "" | some f ↦ f.body.base ]

abbrev pub is_current_from : Option StateFact → Bool
is_current_from none = false
is_current_from (some f) = f.body.base_current

abbrev pub is_base_current : BoardFacts → Bool
is_base_current facts = is_current_from (state_of facts)

abbrev pub is_mergeable : BoardFacts → Bool
is_mergeable facts = elim (state_of facts) [ none ↦ true | some f ↦ f.body.mergeable ]

abbrev pub review_of : BoardFacts → ReviewStatus
review_of facts = elim (review_fact_of facts) [ none ↦ ReviewStatus.pending | some f ↦ f.status ]

abbrev or_unable : Option String → String
or_unable none = "unable"
or_unable (some c) = c

abbrev or_empty : Option String → String
or_empty none = ""
or_empty (some c) = c

abbrev pub category_of : BoardFacts → String
category_of facts = elim (review_fact_of facts) [ none ↦ "unable" | some f ↦ or_unable f.category ]

-- `review.get("category", "")`
abbrev pub category_or_empty : BoardFacts → String
category_or_empty facts = elim (review_fact_of facts) [ none ↦ "" | some f ↦ or_empty f.category ]

abbrev pub blocking_of : BoardFacts → ℕ
blocking_of facts = elim (findings_of facts) [ none ↦ 0 | some f ↦ f.blocking ]

abbrev pub count_of : BoardFacts → ℕ
count_of facts = elim (findings_of facts) [ none ↦ 0 | some f ↦ f.count ]

abbrev pub approval_of : BoardFacts → Bool
approval_of facts = elim (human_of facts) [ none ↦ false | some f ↦ f.approval ]

abbrev pub is_changes_requested : BoardFacts → Bool
is_changes_requested facts = elim (human_of facts) [ none ↦ false | some f ↦ f.changes_requested ]

abbrev pub unresolved_of : BoardFacts → ℕ
unresolved_of facts = elim (human_of facts) [ none ↦ 0 | some f ↦ f.unresolved ]
