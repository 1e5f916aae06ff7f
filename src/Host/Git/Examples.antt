-- ===== src/Host/Git/Examples.antt =====
-- A repair that the agent changes and the publisher loses to a landing of the same operation.
use hamsterdan.Base.{String, false, some, [], ◌∷◌, ◌≡◌, refl, decimal, strip}
use hamsterdan.Colors.{MutWork}
use hamsterdan.Mut.Protocol.{emit, in_flight}
use hamsterdan.Host.Broker.{done}
use hamsterdan.Host.Git.Request.{CodingRequest, request}
use hamsterdan.Host.Git.{
  CodingResult, coded, absent, existing, rejected, ref_cas, GitReads, pushed, reconciles,
  reads_claim, codes, publishes, Gated, expected, git_gate,
}
use hamsterdan.Host.Git.Fence.{Fenced, publish-Fenced}
use hamsterdan.Host.Git.Grounds.{event_of, Grounds}
use hamsterdan.Host.Git.Refinement.{fold_of, git_gate_refines}

abbrev work : MutWork
work = record {
  op = "repair:L1:lint";
  op_key = "push:repair:L1:lint:c1:i1";
  head = "c1";
  base = "b1";
  policy = "p1";
  incarnation = 1;
  lineage = "L1";
  kind = "repair";
  instruction = "";
  run_id = 7;
  attempt = 1;
}

-- the two digests, for a test
abbrev short : String → String
short s = "5d"

abbrev digest : MutWork → CodingRequest → String
digest w q = q.ref

abbrev coding : CodingRequest
coding = record {
  kind = "repair";
  repository = "o/r";
  pull_request = 4;
  epoch = 1;
  head = "c1";
  base = "b1";
  ref = "hamsterdan/mutation/5d";
  selected_work = [];
  failure_evidence =
      record { head = "c1"; run_id = 7; attempt = 1; conclusion = "failure"; fingerprint = "lint" }
      ∷ [];
  fingerprint = "lint";
  lineage = record { kind = "repair_budget"; lineage = "L1"; operation = "repair:L1:lint" } ∷ [];
  reproduction_status = "unknown";
  merge_base = false;
}

test_request : request short "o/r" 4 work ≡ some coding
unfolding request strip decimal
test_request = refl

abbrev result : CodingResult
result = record {
  kind = "repair";
  repository = "o/r";
  pull_request = 4;
  epoch = 1;
  head = "c1";
  base = "b1";
  ref = "hamsterdan/mutation/5d";
  status = "changed";
}

abbrev reads : GitReads
reads = record {
  reconcile = done absent;
  claim = done (expected work);
  code = coded result;
  claim_after = done (expected work);
  publish = rejected ref_cas "the ref moved";
  claim_refused = done (expected work);
  reconcile_refused = done (existing "c2");
}

abbrev gated : Gated
gated = (
  pushed (record {
    op = "repair:L1:lint";
    op_key = "push:repair:L1:lint:c1:i1";
    head = "c1";
    new_head = "c2";
    incarnation = 1;
    lineage = "L1";
  }),
  reconciles "push:repair:L1:lint:c1:i1" "hamsterdan/mutation/5d"
      ∷ reads_claim
      ∷ codes coding
      ∷ reads_claim
      ∷ publishes result "push:repair:L1:lint:c1:i1" "hamsterdan/mutation/5d"
      ∷ reconciles "push:repair:L1:lint:c1:i1" "hamsterdan/mutation/5d"
      ∷ [],
)

test_gate : git_gate short digest "o/r" 4 reads work ≡ some gated
unfolding git_gate request strip decimal
test_gate = refl

publish-Fenced_example : Fenced work coding "hamsterdan/mutation/5d" reads gated
publish-Fenced_example =
    publish-Fenced short digest "o/r" 4 reads work coding gated test_request test_gate

git_gate_refines_example :
    (emit (in_flight work) (event_of gated.0) ≡ fold_of gated.0)
    × Grounds work coding reads (event_of gated.0)
git_gate_refines_example =
    git_gate_refines short digest "o/r" 4 reads work coding gated test_request test_gate
