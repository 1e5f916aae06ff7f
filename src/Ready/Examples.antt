-- ===== src/Ready/Examples.antt =====
-- A pull request that becomes ready, is announced, or meets a fault of the announce gate.
use hamsterdan.Base.{
  true, false, Option, none, some, List, [], ◌∷◌, ◌++◌, ◌≡◌, refl, All, is_some, get, put, decimal,
}
use hamsterdan.Colors.{running, ChecksStatus, ReviewStatus, AnnounceReq, StateFact, AWake, Mail}
use hamsterdan.Ready.{ready, announce_viable}
use hamsterdan.Ready.Protocol.{
  ReadyState, newborn, state, checks, review, human, landed, deferred, faulted, ReadyEvent, folded,
  authorized, answered, woken, fire, run, put_mail,
}
use hamsterdan.Ready.Custody.{IsDistinct}
use hamsterdan.Ready.Once.{announcements, ledger, announced_once}
use hamsterdan.Ready.Authority.{Grounds, requests, request_is_authorized}
use hamsterdan.Ready.Faults.{fault_is_final}
use hamsterdan.Ready.Total.{reached_total}

abbrev state_seen : StateFact
state_seen = record {
  incarnation = 1;
  body = record {
    phase = running;
    head = "c1";
    base = "b1";
    mergeable = true;
    policy = "p1";
    strict_base = true;
    base_current = true;
  };
}

abbrev becomes_ready : List ReadyEvent
becomes_ready =
    folded (state state_seen)
    ∷ folded (checks (record { incarnation = 1; status = ChecksStatus.success }))
    ∷ folded (
        review
          (record { incarnation = 1; head = "c1"; status = ReviewStatus.clear; category = none }))
    ∷ folded (
        human
          (record { incarnation = 1; approval = true; changes_requested = false; unresolved = 0 }))
    ∷ []

abbrev or_newborn : Option (ReadyState × List Mail) → ReadyState × List Mail
or_newborn none = (newborn, [])
or_newborn (some r) = r

-- what a run from the newborn state leaves
abbrev left_by : List ReadyEvent → ReadyState × List Mail
unfolding run fire
left_by es = or_newborn (run newborn es)

abbrev request : AnnounceReq
request = record {
  op = "ready:c1:i1";
  incarnation = 1;
  head = "c1";
  base = "b1";
  policy = "p1";
  strict_base = true;
  base_current = true;
}

abbrev announces : List ReadyEvent
announces = becomes_ready ++ authorized ∷ answered landed ∷ []

test_announces : announcements (left_by announces).1 ≡ 1 ∷ []
unfolding run fire announce_viable ready decimal
test_announces = refl

abbrev asks : List ReadyEvent
asks = becomes_ready ++ authorized ∷ []

test_asks : requests (left_by asks).1 ≡ request ∷ []
unfolding run fire announce_viable ready decimal
test_asks = refl

-- what a firing leaves
abbrev fired_by : ReadyState → ReadyEvent → ReadyState × List Mail
unfolding fire
fired_by w e = or_newborn (fire w e)

announced_once_example :
    (ledger (left_by announces).0.seat ≡ announcements (left_by announces).1)
    × IsDistinct (announcements (left_by announces).1)
unfolding run fire announce_viable ready decimal
announced_once_example = announced_once announces (left_by announces).0 (left_by announces).1 refl

request_is_authorized_example :
    All
      (Grounds (left_by becomes_ready).0.seat authorized)
      (requests (fired_by (left_by becomes_ready).0 authorized).1)
unfolding run fire announce_viable ready decimal
request_is_authorized_example =
    request_is_authorized (left_by becomes_ready).0
      (fired_by (left_by becomes_ready).0 authorized).0 authorized
      (fired_by (left_by becomes_ready).0 authorized).1 refl

-- the gate's fault on the request in hand
abbrev gate_faults : ReadyState × List Mail
gate_faults = fired_by (left_by asks).0 (answered (faulted "HTTP 502"))

abbrev later : ReadyState × List Mail
unfolding run fire
later = or_newborn (run (put_mail gate_faults.0 gate_faults.1) announces)

fault_is_final_example : requests (gate_faults.1 ++ later.1) ≡ []
unfolding run fire announce_viable ready decimal get put
fault_is_final_example =
    fault_is_final asks announces (left_by asks).0 gate_faults.0 later.0 (left_by asks).1
      gate_faults.1 later.1 request [] "HTTP 502" refl refl refl refl

abbrev waits : List ReadyEvent
waits = asks ++ answered (deferred "merge queue") ∷ []

abbrev wake : AWake
wake = record {
  op = "ready:c1:i1";
  incarnation = 1;
  head = "c1";
  base = "b1";
  policy = "p1";
  strict_base = true;
  base_current = true;
  blocker = "merge queue";
}

reached_total_example : is_some (fire (left_by waits).0 (woken wake)) ≡ true
unfolding run fire announce_viable ready decimal
reached_total_example =
    reached_total waits (left_by waits).0 (left_by waits).1 (woken wake) refl refl
