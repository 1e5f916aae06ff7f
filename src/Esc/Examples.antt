-- ===== src/Esc/Examples.antt =====
-- A rung that climbs from a rerun to a repair, a rerun that faults, and a ladder that closes.
use hamsterdan.Base.{
  ℕ, ◌+◌, ◌≤◌, Option, none, some, List, [], ◌∷◌, ◌≡◌, refl, arith, eq_iff, All, get, put,
}
use hamsterdan.Colors.{
  ChecksFailure, Ladder, Rung, Disposition, Outcome, MutationSettled, RerunReq, Mail,
}
use hamsterdan.Esc.{seed, pending_entry, rerun_request, decide, fold_settled}
use hamsterdan.Esc.Protocol.{
  EscState, at_rest, in_gate, EscEvent, failed, recovered, landed, faulted, placed, emit, run,
  reached,
}
use hamsterdan.Esc.Soundness.{IsSound, seed-IsSound, ladder_run_total}
use hamsterdan.Esc.Budget.{repairs_of, refunds, repair_budget}
use hamsterdan.Esc.Reruns.{reruns_of, reopened, rerun_budget}
use hamsterdan.Esc.Recovery.{reissued, fault-recover}
use hamsterdan.Esc.Safety.{IsEarned, push-IsEarned}
use hamsterdan.Esc.Closing.{IsCloser, settled-IsCloser}

-- a failure of run `n`
abbrev failure_of : ℕ → ChecksFailure
failure_of n = record {
  fingerprint = "lint";
  head = "c1";
  base = "b1";
  policy = "p1";
  lineage = "L1";
  incarnation = 1;
  run_id = n;
  attempt = 1;
}

-- a failure, its rerun, and a failure on newer evidence
abbrev climbs : List EscEvent
climbs = failed (failure_of 7) ∷ landed Disposition.requested 7 1 ∷ failed (failure_of 8) ∷ []

repair_budget_example :
    (r : EscState × List Mail) × (run (at_rest seed) climbs ≡ some r)
    × (repairs_of "L1:lint" r.1 ≤ 1 + refunds "L1:lint" climbs)
repair_budget_example = repair_budget "L1:lint" climbs

rerun_budget_example :
    (r : EscState × List Mail) × (run (at_rest seed) climbs ≡ some r)
    × (reruns_of "L1:lint" r.1 ≤ 1 + reopened climbs)
rerun_budget_example = rerun_budget "L1:lint" climbs

ladder_run_total_example :
    (r : EscState × List Mail) × (run (at_rest seed) climbs ≡ some r) × IsSound r.0
ladder_run_total_example = ladder_run_total climbs (at_rest seed) seed-IsSound

abbrev rerun : RerunReq
rerun = rerun_request (failure_of 7) seed

abbrev or_none : Option (List Mail) → List Mail
or_none none = []
or_none (some ms) = ms

abbrev asks_rerun : List Mail
unfolding emit decide
asks_rerun = or_none (emit (at_rest seed) (failed (failure_of 7)))

fault-recover_example :
    reached (
      run
        (in_gate rerun)
        (faulted "HTTP 502" ∷ recovered (record { target = "esc"; op = "rerun:L1:lint" }) ∷ []))
    ≡ some (in_gate (reissued rerun "HTTP 502"))
unfolding run emit decide get
fault-recover_example =
    fault-recover (failed (failure_of 7) ∷ []) rerun asks_rerun "HTTP 502" refl refl

-- a ladder whose rerun is done
abbrev rerun_done : Ladder
rerun_done = record seed { reruns = ("L1:lint", Rung.done 7 1) ∷ [] }

abbrev asks_repair : List Mail
unfolding emit decide get put
asks_repair = or_none (emit (at_rest rerun_done) (failed (failure_of 8)))

push-IsEarned_example : All (IsEarned (at_rest rerun_done) (failed (failure_of 8))) asks_repair
unfolding emit decide get put
push-IsEarned_example = push-IsEarned (at_rest rerun_done) (failed (failure_of 8)) asks_repair refl

-- a ladder that waits for its repair to close
abbrev closing_ladder : Ladder
closing_ladder = record rerun_done {
  repairs = ("L1:lint", pending_entry (failure_of 8)) ∷ [];
  closing = some "merged";
}

abbrev settlement : MutationSettled
settlement = record {
  op = "repair:L1:lint";
  op_key = "push:repair:L1:lint:c1:i1";
  outcome = Outcome.landed;
  incarnation = 1;
  fingerprint = "L1:lint";
}

settled-IsCloser_example :
    IsCloser closing_ladder "merged"
      (placed (at_rest closing_ladder) (fold_settled settlement closing_ladder))
unfolding get
settled-IsCloser_example =
    settled-IsCloser settlement closing_ladder (pending_entry (failure_of 8)) "merged" refl refl
      refl (λ p. ground (arith, eq_iff settlement.fingerprint "")) refl

abbrev absorbed : List Mail
unfolding emit decide
absorbed = or_none (emit (at_rest closing_ladder) (failed (failure_of 9)))
