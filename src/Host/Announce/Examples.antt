-- ===== src/Host/Announce/Examples.antt =====
-- An announcement that is published, with a resolver of stale threads.
use hamsterdan.Base.{true, false, some, [], ◌∷◌, ◌≡◌, refl}
use hamsterdan.Colors.{AnnounceReq}
use hamsterdan.Ready.Protocol.{landed}
use hamsterdan.Host.Announce.{
  returned, AnnounceReads, finds, reads_claim, publishes, resolves, expected, announce_gate,
  on_find, on_claim, prove,
}
use hamsterdan.Host.Announce.Fence.{Fenced, announce-Fenced}

abbrev work : AnnounceReq
work = record {
  op = "ready:c1:i1";
  incarnation = 1;
  head = "c1";
  base = "b1";
  policy = "p1";
  strict_base = true;
  base_current = true;
}

abbrev reads : AnnounceReads
reads = record {
  find = returned false;
  claim = returned (expected work);
  publish = returned (record { status = "created"; capability_available = true });
  resolve = some (returned tt);
}

announce-Fenced_example : Fenced reads work (announce_gate reads work)
announce-Fenced_example = announce-Fenced reads work

test_gate : announce_gate reads work ≡ (
  landed,
  finds "ready:c1:i1" "c1" ∷ reads_claim ∷ publishes "ready:c1:i1" "c1" ∷ resolves "c1" ∷ [],
)
unfolding announce_gate on_find on_claim prove
test_gate = refl
