-- ===== src/Conv/Examples.antt =====
-- A comment that asks for a change twice, and one that recovers a faulted push.
use hamsterdan.Base.{◌≤◌, String, true, false, List, [], ◌∷◌, ◌≡◌, refl, All}
use hamsterdan.Colors.{running, faulted as faulted_phase, IntentFact, MutState}
use hamsterdan.Conv.{seed, classify}
use hamsterdan.Conv.Protocol.{ConvEvent, commented, replied, mailed, emit}
use hamsterdan.Conv.Commitment.{requests, AsksCommitted, commits_once}
use hamsterdan.Conv.Doors.{
  push, Held, Routes, Sends, door_of, fact_of, recovered, wanted, doors_reopen,
}

abbrev comment : String → String → String → IntentFact
comment id kind arg = record {
  id = id;
  kind = kind;
  arg = arg;
  authorized = true;
  phase = running;
  provisional = false;
  incarnation = 1;
  head = "c1";
  base = "b1";
  policy = "p1";
}

-- the comment is delivered again after its reply
abbrev round : List ConvEvent
round =
    commented (comment "9" "change" "rename the flag")
    ∷ replied (record { id = "9"; text = "On it" })
    ∷ commented (comment "9" "change" "rename the flag")
    ∷ []

commits_once_example :
    (requests "9" (mailed seed round) ≤ 1) × All (AsksCommitted round) (mailed seed round)
commits_once_example = commits_once seed round "9"

test_round : requests "9" (mailed seed round) ≡ 1
unfolding mailed emit classify
test_round = refl

abbrev pushed_state : MutState
pushed_state = record {
  state = faulted_phase;
  op = "repair:L1:lint";
  op_key = "push:repair:L1:lint:c1:i1";
  head = "c1";
  base = "b1";
  policy = "p1";
  incarnation = 1;
  kind = "repair";
  instruction = "";
  run_id = 7;
  attempt = 1;
  reason = "HTTP 502";
}

abbrev held : Held
held = push pushed_state "repair:L1:lint:c1:i1"

doors_reopen_example :
    Routes
      (comment "10" "recover_publication" "push:repair:L1:lint:c1:i1")
      seed
      (door_of held (fact_of held))
    × Sends (recovered held) (wanted held)
doors_reopen_example =
    doors_reopen (comment "10" "recover_publication" "push:repair:L1:lint:c1:i1") seed held
      (refl, refl) (refl, refl, refl, refl, refl)
