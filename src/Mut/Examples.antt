-- ===== src/Mut/Examples.antt =====
-- A repair that is requested, faults, and is recovered.
use hamsterdan.Base.{◌+◌, List, [], ◌∷◌, ◌≡◌, refl, strip, before_colon, decimal}
use hamsterdan.Colors.{faulted as faulted_phase, MutationRequest, MutWork, MutState, RecoverFact}
use hamsterdan.Mut.{idle_state, lineage, op_key, budget_key}
use hamsterdan.Mut.Protocol.{
  at_rest, in_flight, MutEvent, requested, recovered, pushed, faulted, emit, final, mailed,
}
use hamsterdan.Mut.Ledger.{settlements, flying, taken, settlements-final}
use hamsterdan.Mut.Custody.{work_fault-recover}

abbrev request : MutationRequest
request = record {
  op = "repair:L1:lint";
  rid = "repair:L1:lint";
  head = "c1";
  base = "b1";
  policy = "p1";
  incarnation = 1;
  source = "escalation";
  kind = "repair";
  instruction = "";
  run_id = 7;
  attempt = 1;
}

abbrev work : MutWork
work = record {
  op = "repair:L1:lint";
  op_key = "push:repair:L1:lint:c1:i1";
  head = "c1";
  base = "b1";
  policy = "p1";
  incarnation = 1;
  lineage = "L1";
  kind = "repair";
  instruction = "";
  run_id = 7;
  attempt = 1;
}

abbrev recovery : RecoverFact
recovery = record { target = "mutation"; op = "push:repair:L1:lint:c1:i1" }

abbrev round : List MutEvent
round = requested request ∷ faulted "HTTP 502" ∷ recovered recovery ∷ pushed "c2" ∷ []

settlements-final_example :
    settlements "push:repair:L1:lint:c1:i1" (mailed (at_rest idle_state) round)
      + flying "push:repair:L1:lint:c1:i1" (final (at_rest idle_state) round)
    ≡ flying "push:repair:L1:lint:c1:i1" (at_rest idle_state)
      + taken "push:repair:L1:lint:c1:i1" (at_rest idle_state) round
settlements-final_example = settlements-final "push:repair:L1:lint:c1:i1" (at_rest idle_state) round

test_settlements : settlements "push:repair:L1:lint:c1:i1" (mailed (at_rest idle_state) round) ≡ 2
unfolding mailed emit op_key decimal
test_settlements = refl

work_fault-recover_example :
    final (in_flight work) (faulted "HTTP 502" ∷ recovered recovery ∷ []) ≡ in_flight work
unfolding final emit op_key lineage decimal budget_key strip before_colon
work_fault-recover_example = work_fault-recover (requested request ∷ []) work "HTTP 502" refl

-- the baton that retains the faulted work
abbrev stuck : MutState
stuck = record {
  state = faulted_phase;
  op_key = "push:repair:L1:lint:c1:i1";
  op = "repair:L1:lint";
  head = "c1";
  base = "b1";
  policy = "p1";
  incarnation = 1;
  reason = "HTTP 502";
  kind = "repair";
  instruction = "";
  run_id = 7;
  attempt = 1;
}
