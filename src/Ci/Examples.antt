-- ===== src/Ci/Examples.antt =====
-- A failing run, its escalation, and a refresh that outruns it.
use hamsterdan.Base.{ℕ, Option, none, some, List, [], ◌∷◌, map, ◌≡◌, refl}
use hamsterdan.Colors.{refreshed, RunConclusion, ChecksStatus, HeadWork, RunWork, CiState, Mail}
use hamsterdan.Ci.{CiEvent, head_work, run_work, moved_echo, fold, failure_mail}
use hamsterdan.Ci.Traces.{run, IsWellFormed, run_total}
use hamsterdan.Ci.Evidence.{IsNewest, run-IsNewest}
use hamsterdan.Ci.Convergence.{verdict, echo_of, echo_refresh_commute}

-- a baton at `c1` that has seen nothing
abbrev admitted : CiState
admitted = record {
  head = "c1";
  base = "b1";
  policy = "p1";
  lineage = "L1";
  incarnation = 1;
  best = none;
  status = ChecksStatus.pending;
  fingerprint = "";
  parked = [];
}

admitted-IsWellFormed : IsWellFormed admitted
admitted-IsWellFormed = record {
  seen = refl;
  parks_current = tt;
  parks_failure = λ h. absurd (h refl);
}

-- an attempt of run 7
abbrev attempt_of : ℕ → RunConclusion → RunWork
attempt_of n conclusion = record {
  incarnation = 1;
  head = "c1";
  run_id = 7;
  attempt = n;
  conclusion = conclusion;
  fingerprint = "lint";
}

-- the second attempt succeeds, and the failure of the first comes late
abbrev late : List RunWork
late = attempt_of 2 RunConclusion.success ∷ attempt_of 1 RunConclusion.failure ∷ []

run-IsNewest_example :
    (r : CiState × List Mail) × (run admitted (map run_work late) ≡ some r)
    × IsNewest admitted late r.0
run-IsNewest_example = run-IsNewest late admitted admitted-IsWellFormed

abbrev fails : List CiEvent
fails = run_work (attempt_of 1 RunConclusion.failure) ∷ moved_echo (echo_of admitted) ∷ []

run_total_example : (r : CiState × List Mail) × (run admitted fails ≡ some r) × IsWellFormed r.0
run_total_example = run_total fails admitted admitted-IsWellFormed

-- the baton whose failure was escalated
abbrev failing : CiState
failing = record admitted {
  best = some (7, 1);
  status = ChecksStatus.failure;
  fingerprint = "lint";
}

-- the base moves under the same head
abbrev refresh : HeadWork
refresh = record {
  incarnation = 1;
  head = "c1";
  base = "b2";
  policy = "p1";
  relation = refreshed;
  lineage = "";
}

abbrev rebased : CiState
rebased = record failing { base = "b2" }

echo_refresh_commute_example :
    (verdict (run failing (moved_echo (echo_of failing) ∷ head_work refresh ∷ []))
      ≡ some (rebased, failure_mail rebased "lint" 7 1 ∷ []))
    × (verdict (run failing (head_work refresh ∷ moved_echo (echo_of failing) ∷ []))
        ≡ some (rebased, failure_mail rebased "lint" 7 1 ∷ []))
echo_refresh_commute_example = echo_refresh_commute failing 7 1 refresh refl refl refl refl refl

abbrev or_empty : Option (List Mail) → List Mail
or_empty none = []
or_empty (some ms) = ms

-- what the first attempt's failure mails
abbrev failure_mails : List Mail
unfolding fold
failure_mails = or_empty (fold (run_work (attempt_of 1 RunConclusion.failure)) admitted)

-- what an echo mails when the refresh came first
abbrev echo_mails : List Mail
unfolding fold
echo_mails = or_empty (fold (moved_echo (echo_of failing)) rebased)
