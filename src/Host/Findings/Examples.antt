-- ===== src/Host/Findings/Examples.antt =====
-- Two findings are published: one in a batch, and one that has no line by itself.
use hamsterdan.Base.{String, true, false, none, [], ◌∷◌, ◌≡◌, refl}
use hamsterdan.Colors.{Finding, Publishable}
use hamsterdan.Review.Folds.{publishable}
use hamsterdan.Review.Settle.{seed}
use hamsterdan.Review.Protocol.{landed}
use hamsterdan.Host.Broker.{PublicationResult}
use hamsterdan.Host.Findings.{
  returned, FindingsReads, finds, reads_claim, posts_all, posts, expected, publication_of,
  publish_gate, seek, on_pending, on_claim, post_all, post_batch, post_rest, finding_operation,
}
use hamsterdan.Host.Findings.Grounds.{Fenced}
use hamsterdan.Host.Findings.Fence.{findings-Fenced}

abbrev overflow : Finding
overflow = record {
  id = "f1";
  blocking = true;
  path = "src/a.py";
  line = 7;
  body = "overflows";
  suggestion = "";
  related_locations = [];
  rest = [];
}

abbrev spelling : Finding
spelling = record overflow { id = "f2"; line = 0; body = "misspelt" }

abbrev digest : String → String
digest id = "0f"

abbrev request : Publishable
request =
    publishable "findings:c1:i1" "c1" "b1" "p1" 1 (overflow ∷ spelling ∷ []) (seed "acme/app#7")

abbrev created : PublicationResult
created = record { status = "created"; capability_available = true }

abbrev reads : FindingsReads
reads = record {
  find = λ op. returned false;
  claim = returned (expected request);
  findings = λ ps. returned (created ∷ []);
  finding = λ p. returned created;
  resolve = none;
}

publishes_both : publish_gate digest reads request ≡ (
  landed,
  finds "findings:c1:i1:f1" "c1"
      ∷ finds "findings:c1:i1:f2" "c1"
      ∷ reads_claim
      ∷ posts_all (publication_of digest "findings:c1:i1" overflow ∷ [])
      ∷ posts (publication_of digest "findings:c1:i1" spelling)
      ∷ [],
)
unfolding publish_gate seek on_pending on_claim post_all post_batch post_rest finding_operation
publishes_both = refl

findings-Fenced_example : Fenced digest reads request (publish_gate digest reads request)
findings-Fenced_example = findings-Fenced digest reads request
