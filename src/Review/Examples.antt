-- ===== src/Review/Examples.antt =====
-- A head whose review finds two defects, of which a human waves one off.
use hamsterdan.Base.{
  ℕ, inl, inr, String, true, false, Option, none, some, List, [], ◌∷◌, ◌≡◌, refl, All, get, decimal,
}
use hamsterdan.Colors.{
  HeadRelation, HeadWork, DismissFact, Finding, ReviewMemory, RoundOpen, Snapshot, Owner,
}
use hamsterdan.Review.Identity.{findings_operation, is_marker_operation, marker_rest}
use hamsterdan.Review.Settle.{seed}
use hamsterdan.Review.Protocol.{
  ReviewPlace, at_rest, in_round, recovered, Fired, reviewed, PublishAnswer, ReviewEvent, headed,
  dismissed, answered, published, fire, run,
}
use hamsterdan.Review.Soundness.{PlaceSound}
use hamsterdan.Review.Invariant.{run-PlaceSound}
use hamsterdan.Review.Reports.{Reports, fire-Reports}
use hamsterdan.Ready
use hamsterdan.Ready.{fault_key, ready}
use hamsterdan.Review.Folds.{round_open}
use hamsterdan.Review.Supersede.{cleared_by, run-superseded}

abbrev digest : String → ℕ → String
digest head incarnation = "0f"

abbrev admitted : HeadWork
admitted = record {
  incarnation = 1;
  head = "c1";
  base = "b1";
  policy = "p1";
  relation = HeadRelation.new;
  lineage = "";
}

abbrev successor : HeadWork
successor = record admitted { incarnation = 2; head = "c2"; relation = HeadRelation.superseded }

abbrev overflow : Finding
overflow = record {
  id = "f1";
  blocking = true;
  path = "src/a.py";
  line = 7;
  body = "overflows";
  suggestion = "";
  related_locations = [];
  rest = [];
}

abbrev spelling : Finding
spelling = record overflow { id = "f2"; blocking = false; line = 0; body = "misspelt" }

abbrev review_faults : List ReviewEvent
review_faults =
    headed admitted
    ∷ answered (reviewed (overflow ∷ spelling ∷ []) [])
    ∷ published (PublishAnswer.faulted "HTTP 502")
    ∷ []

abbrev or_seed : Option Fired → Fired
or_seed none = (at_rest (seed "acme/app#7"), [])
or_seed (some f) = f

abbrev after : List ReviewEvent → Fired
unfolding run
after es = or_seed (run digest (at_rest (seed "acme/app#7")) es)

abbrev memory_of : ReviewPlace → ReviewMemory
memory_of (at_rest m) = m
memory_of _ = seed "acme/app#7"

run-PlaceSound_example : PlaceSound (after review_faults).0
unfolding run fire
run-PlaceSound_example =
    run-PlaceSound digest (at_rest (seed "acme/app#7")) (after review_faults).0 review_faults
      (after review_faults).1 (tt, inl refl) refl

-- the round of the next head, over the publication that faulted
abbrev next_round : RoundOpen
unfolding after
next_round = round_open successor (memory_of (after review_faults).0) "review:acme/app#7:c2:i2"

-- its publication lands, and then a human recovers the operation that faulted
abbrev superseding : List ReviewEvent
superseding =
    published PublishAnswer.landed
    ∷ recovered (record { target = "review"; op = "findings:c1:i1" })
    ∷ []

abbrev superseded : Fired
unfolding run fire after
superseded = or_seed (run digest (in_round next_round) (answered (reviewed [] []) ∷ superseding))

abbrev faulted_snapshot : Snapshot
faulted_snapshot = record Ready.seed { faults = ("review:findings:c1:i1", "HTTP 502") ∷ [] }

run-superseded_example :
    (get (fault_key Owner.review "findings:c1:i1") (cleared_by superseded.1 faulted_snapshot).faults
      ≡ get (fault_key Owner.review "findings:c1:i1") faulted_snapshot.faults)
    × (ready (cleared_by superseded.1 faulted_snapshot) ≡ false)
unfolding run fire after superseded next_round findings_operation is_marker_operation marker_rest
    decimal get
run-superseded_example =
    run-superseded digest "findings:c1:i1" next_round [] [] superseding superseded.0 superseded.1
      faulted_snapshot refl (tt, (tt, tt)) refl refl

abbrev waves_off : DismissFact
waves_off = record { finding_id = "f1" }

abbrev dismissal : Fired
unfolding fire
dismissal = or_seed (fire digest (after review_faults).0 (dismissed waves_off))

fire-Reports_example : All (Reports dismissal.0) dismissal.1
unfolding after run fire dismissal
fire-Reports_example =
    fire-Reports digest (after review_faults).0 dismissal.0 (dismissed waves_off) dismissal.1
      (inr (refl, (refl, (refl, tt))), inr refl) refl
