-- ===== src/Host/Git/Request.antt =====
-- `request` of src/hamsterdan/host/v5/mutation.py.
use hamsterdan.Base.{
  ℕ, String, Bool, not, ◌||◌, Option, none, some, List, [], ◌∷◌, ◌==◌, eqb, if◌then◌else◌, ◌⧺◌,
  decimal, strip,
}
use hamsterdan.Colors.{MutWork}

-- the dictionaries of a coding request
pub record SelectedWork : Type 0 where
  pub kind : String
  pub request : String

pub record FailureEvidence : Type 0 where
  pub head : String
  pub run_id : ℕ
  pub attempt : ℕ
  pub conclusion : String
  pub fingerprint : String

pub record RepairBudget : Type 0 where
  pub kind : String
  pub lineage : String
  pub operation : String

pub record CodingRequest : Type 0 where
  pub kind : String
  pub repository : String
  pub pull_request : ℕ
  pub epoch : ℕ
  pub head : String
  pub base : String
  pub ref : String
  pub selected_work : List SelectedWork
  pub failure_evidence : List FailureEvidence
  pub fingerprint : String
  pub lineage : List RepairBudget
  pub reproduction_status : String
  pub merge_base : Bool

abbrev pub is_merge : String → Bool
is_merge kind = kind == "update_base" || kind == "resolve_conflict"

-- `agent_operation`
abbrev pub operation_of : String → ℕ → MutWork → String
operation_of repository pull_request work =
    "mutation:" ⧺ repository ⧺ ":pr:" ⧺ decimal pull_request ⧺ ":" ⧺ work.op_key

-- a request without the parts that depend on the kind
abbrev request_for : (String → String) → String → ℕ → MutWork → String → CodingRequest
request_for short_digest repository pull_request work kind = record {
  kind = kind;
  repository = repository;
  pull_request = pull_request;
  epoch = work.incarnation;
  head = work.head;
  base = work.base;
  ref = "hamsterdan/mutation/" ⧺ short_digest (operation_of repository pull_request work);
  selected_work = [];
  failure_evidence = [];
  fingerprint = "";
  lineage = [];
  reproduction_status = "unknown";
  merge_base = is_merge work.kind;
}

-- the fingerprint of a repair's operation; `none` if the payload is malformed
abbrev pub repair_fingerprint : MutWork → Option String
repair_fingerprint work =
    if work.lineage == "" || not (work.instruction == "") || eqb work.run_id 0 || eqb work.attempt 0
    then none
    else elim (strip ("repair:" ⧺ work.lineage ⧺ ":") work.op) [
      | none ↦ none
      | some rest ↦ if rest == "" then none else some rest
    ]

-- `request`
unfoldable pub request : (String → String) → String → ℕ → MutWork → Option CodingRequest
unfolding strip
request short_digest repository pull_request work =
    if work.kind == "repair"
    then elim (repair_fingerprint work) [
      | none ↦ none
      | some fingerprint ↦
          some (record (request_for short_digest repository pull_request work "repair") {
            failure_evidence =
                record {
                  head = work.head;
                  run_id = work.run_id;
                  attempt = work.attempt;
                  conclusion = "failure";
                  fingerprint = fingerprint;
                }
                ∷ [];
            fingerprint = fingerprint;
            lineage =
                record { kind = "repair_budget"; lineage = work.lineage; operation = work.op } ∷ [];
          })
    ]
    else if not (work.kind == "change" || is_merge work.kind)
    then none
    else some (record (request_for short_digest repository pull_request work "change") {
      selected_work = record { kind = work.kind; request = work.instruction } ∷ [];
    })
