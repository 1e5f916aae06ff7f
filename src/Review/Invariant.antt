-- ===== src/Review/Invariant.antt =====
-- The review loop keeps its invariant.
use hamsterdan.Base.{
  All, ℕ, String, Option, none, some, List, [], ◌∷◌, ◌≡◌, inl, inr, refl, sym, arith, Bool-cases,
}
use mathlib.Core.Path.{subst}
use hamsterdan.Colors.{
  is_refreshed, HeadWork, Finding, Pub, idle, held, stray, ReviewMemory, RoundOpen, RoundDeferred,
  RoundWake, Publishable, PublicationDeferred, Mail,
}
use hamsterdan.Review.Identity.{operation}
use hamsterdan.Review.Folds.{
  open_round, start, judge, unable, round_moved, wakes, wake_deferred, wake_publication,
}
use hamsterdan.Review.Settle.{
  fold_landed, fold_moved, fold_blocked, fold_fault, faulted_pub, recover, end, end_deferred,
  end_publication_deferred, drain,
}
use hamsterdan.Review.Protocol.{
  ReviewPlace, at_rest, in_round, waiting, publishing, put_off, RoundAnswer, reviewed, unable_to,
  PublishAnswer, ReviewEvent, headed, recovered, dismissed, woken, answered, published, Fired,
  fired_or, on_answer, on_publish, fire, run,
}
use hamsterdan.Review.Runs.{IfFired, run-keeps}
use hamsterdan.Review.Soundness.{
  AllLive, PubSound, MemorySound, Holds, RequestSound, PlaceSound, live-AllLive,
  start_refreshed-PlaceSound, recover-PlaceSound, dismiss-PlaceSound,
}

answer-PlaceSound :
    (digest : String → ℕ → String) (r : RoundOpen) (a : RoundAnswer)
    → MemorySound r.mem
    → PlaceSound (on_answer digest r a).0
unfolding on_answer judge unable round_moved
answer-PlaceSound digest r (reviewed fs lineage) h =
    (refl, live-AllLive fs r.mem.dismissed, refl, inr refl)
answer-PlaceSound digest r (RoundAnswer.deferred blocker) h = h
answer-PlaceSound digest r (RoundAnswer.moved current) h = h
answer-PlaceSound digest r (unable_to category) h = (h.0, inl refl)

faulted-PubSound :
    (fs : List Finding) (m : ReviewMemory) (b : Pub) (reason : String)
    → m.provisional ≡ []
    → AllLive m.dismissed fs
    → Holds fs b
    → PubSound m.provisional m.dismissed (faulted_pub b reason)
faulted-PubSound fs m idle reason p h g = absurd g
faulted-PubSound fs m (stray x) reason p h g = absurd g
faulted-PubSound fs m (held b) reason p h g = inr (p, subst (AllLive m.dismissed) (sym g) h)

publish-PlaceSound :
    (q : Publishable) (a : PublishAnswer)
    → RequestSound q.findings q.mem
    → PlaceSound (on_publish q a).0
unfolding on_publish fold_landed fold_moved fold_blocked fold_fault
publish-PlaceSound q PublishAnswer.landed h = (tt, h.3)
publish-PlaceSound q (PublishAnswer.deferred blocker) h = h
publish-PlaceSound q (PublishAnswer.moved current) h = (tt, h.3)
publish-PlaceSound q (PublishAnswer.blocked refusal) h = (inr (h.0, h.1), h.3)
publish-PlaceSound q (PublishAnswer.faulted reason) h =
    (faulted-PubSound q.findings q.mem q.mem.publication reason h.0 h.1 h.2, h.3)

abbrev FiredSound : Option Fired → Type 0
FiredSound = IfFired PlaceSound

open-FiredSound :
    (w : HeadWork) (m : ReviewMemory) (op : Option String)
    → MemorySound m
    → FiredSound (fired_or (at_rest m) (open_round w m op))
open-FiredSound w m none h = tt
open-FiredSound w m (some op) h = (h.0, inl refl)

start-FiredSound :
    (digest : String → ℕ → String) (w : HeadWork) (m : ReviewMemory)
    → MemorySound m
    → FiredSound (fired_or (at_rest m) (start digest w m))
unfolding start
start-FiredSound digest w m h = elim (Bool-cases (is_refreshed w.relation)) [
  | inl p ↦ rw p (start_refreshed-PlaceSound digest w m (at_rest m) h)
  | inr p ↦ rw p (open-FiredSound w m (operation m.subject w.head w.incarnation) h)
]

wake_round-FiredSound :
    (d : RoundDeferred) (w : RoundWake)
    → MemorySound d.mem
    → FiredSound (fired_or (waiting d) (wake_deferred d w))
unfolding wake_deferred
wake_round-FiredSound d w h = elim (Bool-cases (wakes w d.operation d.attempt d.blocker)) [
  | inl p ↦ rw p h
  | inr p ↦ rw p tt
]

wake_publication-FiredSound :
    (d : PublicationDeferred) (w : RoundWake)
    → RequestSound d.findings d.mem
    → FiredSound (fired_or (put_off d) (wake_publication d w))
unfolding wake_publication
wake_publication-FiredSound d w h = elim (Bool-cases (wakes w d.operation d.attempt d.blocker)) [
  | inl p ↦ rw p h
  | inr p ↦ rw p tt
]

fire-FiredSound :
    (digest : String → ℕ → String) (p : ReviewPlace) (e : ReviewEvent)
    → PlaceSound p
    → FiredSound (fire digest p e)
unfolding fire recover end end_deferred end_publication_deferred drain
fire-FiredSound digest (at_rest m) (headed w) h = start-FiredSound digest w m h
fire-FiredSound digest (at_rest m) (recovered r) h =
    recover-PlaceSound r m m.publication (at_rest m) h h.0
fire-FiredSound digest (at_rest m) (dismissed d) h = dismiss-PlaceSound d m (at_rest m) h
fire-FiredSound digest (in_round r) (answered a) h = answer-PlaceSound digest r a h
fire-FiredSound digest (publishing q) (published a) h = publish-PlaceSound q a h
fire-FiredSound digest (waiting d) (woken w) h = wake_round-FiredSound d w h
fire-FiredSound digest (put_off d) (woken w) h = wake_publication-FiredSound d w h
fire-FiredSound digest p e h = ground arith

All-unit : (es : List ReviewEvent) → All (λ e. Unit {0}) es
All-unit [] = tt
All-unit (e ∷ es) = (tt, All-unit es)

-- In every run of the review loop from its seed, whatever the agent and the publish gate answer and the
-- human dismisses and recovers: a publication request and its descriptor carry the same findings, none
-- of them dismissed, and nothing is retained beside them; a blocked or faulted operation keeps that
-- exclusive custody while it is retained; and a status that is clear or blocking says whether a
-- finding that is not dismissed blocks.
pub run-PlaceSound :
    (digest : String → ℕ → String) (p q : ReviewPlace) (es : List ReviewEvent) (ms : List Mail)
    → PlaceSound p
    → run digest p es ≡ some (q, ms)
    → PlaceSound q
run-PlaceSound digest p q es ms h r =
    run-keeps PlaceSound (λ e. Unit {0}) digest (λ p e h u. fire-FiredSound digest p e h) p q es ms
      h (All-unit es) r
