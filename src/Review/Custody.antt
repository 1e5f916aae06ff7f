-- ===== src/Review/Custody.antt =====
-- The findings that a review shows, and the facts that its settlement mails.
use hamsterdan.Base.{
  ℕ, ◌+◌, String, Bool, true, false, not, ◌&&◌, ◌||◌, Option, none, some, List, [], ◌∷◌,
  if◌then◌else◌, length, one_if,
}
use hamsterdan.Colors.{
  ReviewStatus, mem_text, Finding, PubPhase, Pub, held, ReviewMemory, ReviewFact, FindingsFact,
  FaultClearedFact, Owner, ClearedStatus, review_status, review_findings, fault_cleared, Mail,
  dash_facts, ready_findings_facts, ready_review_facts, ready_fault_cleared_facts,
}

-- `_live`
abbrev pub live : List Finding → List String → List Finding
live [] dismissed = []
live (f ∷ fs) dismissed =
    let rest = live fs dismissed in if mem_text f.id dismissed then rest else f ∷ rest

-- `any(f["blocking"] for f in findings)`
abbrev pub any_blocking : List Finding → Bool
any_blocking [] = false
any_blocking (f ∷ fs) = f.blocking || any_blocking fs

-- `_status`
abbrev pub status_of : List Finding → List String → ReviewStatus
status_of findings dismissed =
    if any_blocking (live findings dismissed) then ReviewStatus.blocking else ReviewStatus.clear

-- `_review_fact`
abbrev pub review_fact : String → ℕ → ReviewStatus → ReviewFact
review_fact head incarnation status = record {
  incarnation = incarnation;
  head = head;
  status = status;
  category = none;
}

-- `sum(1 for f in findings if f["blocking"] and f["id"] not in dismissed)`
abbrev pub count_blocking : List Finding → List String → ℕ
count_blocking [] dismissed = 0
count_blocking (f ∷ fs) dismissed =
    one_if (f.blocking && not (mem_text f.id dismissed)) + count_blocking fs dismissed

-- `_findings_fact`
abbrev pub findings_fact : String → ℕ → List Finding → List String → FindingsFact
findings_fact head incarnation findings dismissed = record {
  incarnation = incarnation;
  head = head;
  blocking = count_blocking findings dismissed;
  count = length findings;
}

-- a fact that the loop settles with
pub data Settled : Type 0 where
  findings : FindingsFact → Settled
  reviewed : ReviewFact → Settled
  cleared : FaultClearedFact → Settled

-- `status in ("clear", "blocking")`
abbrev pub is_judged : ReviewStatus → Bool
is_judged ReviewStatus.clear = true
is_judged ReviewStatus.blocking = true
is_judged _ = false

-- `_settlement_facts`
abbrev pub settlement_facts : ReviewMemory → String → ℕ → List Settled
settlement_facts mem head incarnation =
    findings (findings_fact head incarnation mem.findings mem.dismissed)
    ∷ (if is_judged mem.status then reviewed (review_fact head incarnation mem.status) ∷ [] else [])

abbrev pub cleared_fact : String → ClearedStatus → FaultClearedFact
cleared_fact op status = record { owner = Owner.review; op = op; status = status }

abbrev pub is_faulted_origin : Option PubPhase → Bool
is_faulted_origin (some PubPhase.faulted) = true
is_faulted_origin _ = false

-- `_resolution`
abbrev pub resolution : Pub → List Settled
resolution (held p) =
    if is_faulted_origin p.was then cleared (cleared_fact p.op ClearedStatus.resolved) ∷ [] else []
resolution _ = []

-- `_fact_routes`: each fact to the dashboard and to its mailbox in readiness
abbrev pub fact_routes : List Settled → List Mail
fact_routes [] = []
fact_routes (findings f ∷ fs) =
    dash_facts (review_findings f) ∷ ready_findings_facts f ∷ fact_routes fs
fact_routes (reviewed f ∷ fs) = dash_facts (review_status f) ∷ ready_review_facts f ∷ fact_routes fs
fact_routes (cleared f ∷ fs) =
    dash_facts (fault_cleared f) ∷ ready_fault_cleared_facts f ∷ fact_routes fs
