-- ===== src/Gating/Dispatch.antt =====
-- Every publication that the review loop asks for can be dispatched.
use hamsterdan.Base.{
  ℕ, String, true, not, ◌||◌, Option, none, some, List, ◌==◌, ◌≡◌, refl, inl, inr, arith, eq_iff,
  leb, decimal, Bool-cases, All,
}
use hamsterdan.Colors.{
  is_refreshed, HeadWork, RecoverFact, DismissFact, Pub, idle, held, stray, ReviewMemory, RoundOpen,
  RoundDeferred, RoundWake, Publishable, PublicationDeferred, Mail,
}
use hamsterdan.Review.Identity.{operation, is_marker_operation, findings_operation}
use hamsterdan.Review.Grammar.{all_marker, text_length, findings_operation-IsMarker}
use hamsterdan.Review.Custody.{live, is_judged}
use hamsterdan.Review.Folds.{
  is_nil, start_refreshed, open_round, start, judge, unable, round_moved, wakes, wake_deferred,
  wake_publication,
}
use hamsterdan.Review.Settle.{
  fold_landed, fold_moved, fold_blocked, fold_fault, faulted_pub, is_retained, recover_pub, recover,
  has_id, is_carried, cancelled_pub, recounted, dismissed_memory, dismiss, end, end_deferred,
  end_publication_deferred, drain, seed,
}
use hamsterdan.Review.Protocol.{
  ReviewPlace, at_rest, in_round, waiting, publishing, put_off, ended, RoundAnswer, reviewed,
  unable_to, PublishAnswer, ReviewEvent, headed, recovered, dismissed, woken, answered, published,
  Fired, placed, fired_or, on_answer, on_publish, fire, run,
}
use hamsterdan.Review.Runs.{IfFired, run-keeps}
use hamsterdan.Gating.{inline_operation, publish_gate}

-- an incarnation of at most 46 digits
abbrev pub IsSmall : ℕ → Type 0
IsSmall n = leb (text_length (decimal n)) 46 ≡ true

-- an operation that its effect names, and that fits the grammar
abbrev pub Fits : String → String → Type 0
Fits op effect = (effect ≡ op) × (is_marker_operation op ≡ true)

abbrev pub PubFits : Pub → Type 0
PubFits (held p) = Fits p.op p.effect
PubFits _ = Unit

abbrev pub PlaceFits : ReviewPlace → Type 0
PlaceFits (at_rest m) = PubFits m.publication
PlaceFits (in_round r) = PubFits r.mem.publication × IsSmall r.incarnation
PlaceFits (waiting d) = PubFits d.mem.publication × IsSmall d.incarnation
PlaceFits (publishing q) = Fits q.op q.effect × PubFits q.mem.publication
PlaceFits (put_off d) = Fits d.operation d.effect × PubFits d.mem.publication
PlaceFits (ended e) = Unit

-- the incarnation of an admitted head is small
abbrev pub EventFits : ReviewEvent → Type 0
EventFits (headed w) = IsSmall w.incarnation
EventFits _ = Unit

abbrev FiredFits : Option Fired → Type 0
FiredFits = IfFired PlaceFits

faulted-PubFits : (b : Pub) (reason : String) → PubFits b → PubFits (faulted_pub b reason)
faulted-PubFits idle reason h = tt
faulted-PubFits (stray x) reason h = tt
faulted-PubFits (held p) reason h = h

cancelled-PubFits : (id : String) (b : Pub) → PubFits b → PubFits (cancelled_pub id b)
cancelled-PubFits id idle h = tt
cancelled-PubFits id (stray x) h = tt
cancelled-PubFits id (held p) h = elim (Bool-cases (is_carried id (held p))) [
  | inl c ↦ rw c h
  | inr c ↦ rw c h
]

publish-PlaceFits :
    (q : Publishable) (a : PublishAnswer)
    → Fits q.op q.effect
    → PubFits q.mem.publication
    → PlaceFits (on_publish q a).0
unfolding on_publish fold_landed fold_moved fold_blocked fold_fault
publish-PlaceFits q PublishAnswer.landed f h = tt
publish-PlaceFits q (PublishAnswer.deferred blocker) f h = (f, h)
publish-PlaceFits q (PublishAnswer.moved current) f h = tt
publish-PlaceFits q (PublishAnswer.blocked refusal) f h = f
publish-PlaceFits q (PublishAnswer.faulted reason) f h = faulted-PubFits q.mem.publication reason h

recover-PlaceFits :
    (r : RecoverFact) (m : ReviewMemory) (b : Pub)
    → PubFits m.publication
    → PubFits b
    → PlaceFits (placed (at_rest m) (recover_pub r m b))
unfolding recover_pub
recover-PlaceFits r m idle h g = h
recover-PlaceFits r m (stray x) h g = h
recover-PlaceFits r m (held b) h g =
    elim (Bool-cases
      (not (r.target == "review") || not (is_retained b.phase) || not (r.op == b.op))) [
        | inl c ↦ rw c h
        | inr c ↦ rw c (g, g)
      ]

recounted-PubFits : (m : ReviewMemory) → PubFits m.publication → PubFits (recounted m).publication
recounted-PubFits m h = elim (Bool-cases (is_judged m.status)) [ inl p ↦ rw p h | inr p ↦ rw p h ]

dismiss-PlaceFits :
    (d : DismissFact) (m : ReviewMemory)
    → PubFits m.publication
    → PlaceFits (placed (at_rest m) (dismiss d m))
unfolding dismiss
dismiss-PlaceFits d m h =
    let g = cancelled-PubFits d.finding_id m.publication h in
    elim (Bool-cases (has_id d.finding_id m.findings)) [
      | inl q ↦ rw q (recounted-PubFits (dismissed_memory d.finding_id m) g)
      | inr q ↦ rw q g
    ]

wake_round-FiredFits :
    (d : RoundDeferred) (w : RoundWake)
    → PlaceFits (waiting d)
    → FiredFits (fired_or (waiting d) (wake_deferred d w))
unfolding wake_deferred
wake_round-FiredFits d w h = elim (Bool-cases (wakes w d.operation d.attempt d.blocker)) [
  | inl p ↦ rw p h
  | inr p ↦ rw p tt
]

wake_publication-FiredFits :
    (d : PublicationDeferred) (w : RoundWake)
    → PlaceFits (put_off d)
    → FiredFits (fired_or (put_off d) (wake_publication d w))
unfolding wake_publication
wake_publication-FiredFits d w h = elim (Bool-cases (wakes w d.operation d.attempt d.blocker)) [
  | inl p ↦ rw p h
  | inr p ↦ rw p tt
]

open-FiredFits :
    (w : HeadWork) (m : ReviewMemory) (op : Option String)
    → PubFits m.publication
    → IsSmall w.incarnation
    → FiredFits (fired_or (at_rest m) (open_round w m op))
open-FiredFits w m none h s = tt
open-FiredFits w m (some op) h s = (h, s)

-- the digest has 64 characters of the grammar
abbrev pub IsDigest : String → Type 0
IsDigest d = (all_marker d ≡ true) × (text_length d ≡ 64)

module _ (digest : String → ℕ → String) (hex : (h : String) (n : ℕ) → IsDigest (digest h n)) where
  identity-Fits :
      (head : String) (n : ℕ)
      → IsSmall n
      → Fits (findings_operation digest head n) (findings_operation digest head n)
  identity-Fits head n s =
      (refl, findings_operation-IsMarker digest head n (hex head n).0 (hex head n).1 s)

  start-FiredFits :
      (w : HeadWork) (m : ReviewMemory)
      → PubFits m.publication
      → IsSmall w.incarnation
      → FiredFits (fired_or (at_rest m) (start digest w m))
  unfolding start start_refreshed
  start-FiredFits w m h s =
      let i = identity-Fits w.head w.incarnation s in
      elim (Bool-cases (is_refreshed w.relation)) [
        | inr p ↦ rw p (open-FiredFits w m (operation m.subject w.head w.incarnation) h s)
        | inl p ↦ rw p (elim (Bool-cases (is_nil (live m.provisional m.dismissed))) [
          | inl q ↦ rw q h
          | inr q ↦ rw q (i, i)
        ])
      ]

  answer-PlaceFits :
      (r : RoundOpen) (a : RoundAnswer)
      → PlaceFits (in_round r)
      → PlaceFits (on_answer digest r a).0
  unfolding on_answer judge unable round_moved
  answer-PlaceFits r (reviewed fs lineage) h =
      let i = identity-Fits r.head r.incarnation h.1 in (i, i)
  answer-PlaceFits r (RoundAnswer.deferred blocker) h = h
  answer-PlaceFits r (RoundAnswer.moved current) h = h.0
  answer-PlaceFits r (unable_to category) h = h.0

  fire-FiredFits :
      (p : ReviewPlace) (e : ReviewEvent) → PlaceFits p → EventFits e → FiredFits (fire digest p e)
  unfolding fire recover end end_deferred end_publication_deferred drain
  fire-FiredFits (at_rest m) (headed w) h s = start-FiredFits w m h s
  fire-FiredFits (at_rest m) (recovered r) h s = recover-PlaceFits r m m.publication h h
  fire-FiredFits (at_rest m) (dismissed d) h s = dismiss-PlaceFits d m h
  fire-FiredFits (in_round r) (answered a) h s = answer-PlaceFits r a h
  fire-FiredFits (publishing q) (published a) h s = publish-PlaceFits q a h.0 h.1
  fire-FiredFits (waiting d) (woken w) h s = wake_round-FiredFits d w h
  fire-FiredFits (put_off d) (woken w) h s = wake_publication-FiredFits d w h
  fire-FiredFits p e h s = ground arith

-- the publication that a place holds can be dispatched under its operation
abbrev pub Dispatches : ReviewPlace → Type 0
Dispatches (publishing q) = inline_operation (publish_gate q) ≡ some q.op
Dispatches _ = Unit

fits-Dispatches : (p : ReviewPlace) → PlaceFits p → Dispatches p
unfolding inline_operation
fits-Dispatches (publishing q) h = ground (arith, eq_iff q.effect q.op, h.0.0, h.0.1)
fits-Dispatches (at_rest m) h = tt
fits-Dispatches (in_round r) h = tt
fits-Dispatches (waiting d) h = tt
fits-Dispatches (put_off d) h = tt
fits-Dispatches (ended e) h = tt

-- In every run of the review loop from its seed, each publication that it asks for can be dispatched: its
-- effect is its operation, and that fits the grammar of markers, so that the handler of the gate does not
-- raise. The digests have 64 characters of the grammar, and the incarnations at most 46 digits.
pub publications_dispatch :
    (digest : String → ℕ → String) (hex : (h : String) (n : ℕ) → IsDigest (digest h n))
    (subject : String) (es : List ReviewEvent) (q : ReviewPlace) (ms : List Mail)
    → All EventFits es
    → run digest (at_rest (seed subject)) es ≡ some (q, ms)
    → Dispatches q
publications_dispatch digest hex subject es q ms s r = fits-Dispatches q (
    run-keeps PlaceFits EventFits digest (fire-FiredFits digest hex) (at_rest (seed subject)) q es
      ms tt s r)
