-- ===== src/Host/Rerun/Examples.antt =====
-- A rerun whose POST lands unproven, and the round that recovers it.
use hamsterdan.Base.{◌≤◌, String, List, [], ◌∷◌, ◌≡◌, refl, arith, decimal}
use hamsterdan.Colors.{running, ChecksFailure, RerunReq}
use hamsterdan.Esc.{seed, rerun_request}
use hamsterdan.Host.Broker.{
  done, Run, PostOutcome, created, unproven, Reads, marker, ends_with, find, find_run, issue,
}
use hamsterdan.Host.Rerun.{rerun_gate}
use hamsterdan.Host.Rerun.Fence.{PostsFenced, gate-PostsFenced}
use hamsterdan.Host.Rerun.Once.{HostEvent, attempted, step, final, marked, rerun_once}
use hamsterdan.Host.Rerun.Grounds.{Grounds}

abbrev failure : ChecksFailure
failure = record {
  fingerprint = "lint";
  head = "c1";
  base = "b1";
  policy = "p1";
  lineage = "L1";
  incarnation = 1;
  run_id = 7;
  attempt = 1;
}

abbrev work : RerunReq
work = rerun_request failure seed

abbrev failed_run : Run
failed_run = record { id = 7; head = "c1"; workflow = "ci.yml"; attempt = 1 }

-- a round in which all reads succeed, and the post ends as given
abbrev round : PostOutcome → Reads
round post = record {
  lookup = done tt;
  claim =
      done (record { phase = running; incarnation = 1; head = "c1"; base = "b1"; policy = "p1" });
  runs = λ head. done (failed_run ∷ []);
  pull_head = done "c1";
  workflow_runs = λ workflow head. done (failed_run ∷ []);
  listing = done tt;
  fence = done tt;
  post = post;
}

abbrev bot : String
bot = "dan[bot]"

gate-PostsFenced_example :
    PostsFenced bot (round created) [] work (rerun_gate bot (round created) [] work).1
gate-PostsFenced_example = gate-PostsFenced bot (round created) [] work

-- the post lands unproven; the ladder faults and the recovery runs the gate again
abbrev twice : List HostEvent
twice = attempted (round (unproven "HTTP 502")) work ∷ attempted (round created) work ∷ []

rerun_once_example : marked bot (marker 7 "c1" "rerun:L1:lint") (final bot [] twice) ≤ 1
rerun_once_example = rerun_once bot (marker 7 "c1" "rerun:L1:lint") [] twice (omega arith)

test_twice : marked bot (marker 7 "c1" "rerun:L1:lint") (final bot [] twice) ≡ 1
unfolding final step rerun_gate issue find ends_with find_run decimal
test_twice = refl
