-- ===== src/Review/Reports.antt =====
-- What the review loop tells readiness.
use hamsterdan.Base.{
  ℕ, String, not, ◌&&◌, ◌||◌, Option, none, some, List, [], ◌∷◌, ◌++◌, ◌≡◌, ◌==◌, ◌⊎◌, inl, inr,
  refl, ◌∙◌, arith, eqb, length, if◌then◌else◌, Bool-cases, All,
}
use mathlib.Core.Path.{subst}
use hamsterdan.Colors.{
  ReviewStatus, is_refreshed, HeadWork, RecoverFact, DismissFact, Finding, PubRecord, Pub, idle,
  held, stray, ReviewMemory, RoundOpen, RoundDeferred, RoundWake, Publishable, PublicationDeferred,
  Mail, ready_findings_facts, ready_review_facts,
}
use hamsterdan.Review.Identity.{operation}
use hamsterdan.Review.Custody.{
  live, any_blocking, status_of, count_blocking, is_judged, Settled, settlement_facts, resolution,
  fact_routes, is_faulted_origin,
}
use hamsterdan.Review.Folds.{
  is_nil, start_refreshed, open_round, start, judge, unable, round_moved, wakes, wake_deferred,
  wake_publication,
}
use hamsterdan.Review.Settle.{
  settled_memory, blocked_record, fold_landed, fold_moved, fold_blocked, fold_fault, is_retained,
  recover_pub, recover, has_id, cancellation, is_carried, is_faulted_phase, recounted,
  dismissed_memory, dismiss, end, end_deferred, end_publication_deferred, drain,
}
use hamsterdan.Review.Protocol.{
  ReviewPlace, at_rest, in_round, waiting, publishing, put_off, RoundAnswer, reviewed, unable_to,
  PublishAnswer, ReviewEvent, headed, recovered, dismissed, woken, closed, answered, published,
  Fired, fired, fired_or, blocked_of, on_answer, on_publish, fire,
}
use hamsterdan.Review.Soundness.{StatusSound, PlaceSound}

-- the status that goes with a count of blocking findings
abbrev pub status_by : ℕ → ReviewStatus
status_by n = if eqb n 0 then ReviewStatus.clear else ReviewStatus.blocking

-- A mail to readiness agrees with the memory that rests: the counts are those of its findings, and a
-- review status is "unable" or the one that the count of the blocking findings gives. Nothing is
-- reported while a round or a publication holds the memory, or after the end.
abbrev pub Reports : ReviewPlace → Mail → Type 0
Reports (at_rest m) (ready_findings_facts f) =
    (f.blocking ≡ count_blocking m.findings m.dismissed) × (f.count ≡ length m.findings)
Reports (at_rest m) (ready_review_facts f) =
    (f.status ≡ ReviewStatus.unable)
    ⊎ (f.status ≡ status_by (count_blocking m.findings m.dismissed))
Reports _ (ready_findings_facts f) = ⊥
Reports _ (ready_review_facts f) = ⊥
Reports _ _ = Unit

any_blocking-count :
    (fs : List Finding) (ids : List String)
    → any_blocking (live fs ids) ≡ not (eqb (count_blocking fs ids) 0)
any_blocking-count [] ids = refl
any_blocking-count (f ∷ fs) ids = ground (arith, any_blocking-count fs ids)

status_of-status_by :
    (fs : List Finding) (ids : List String) → status_of fs ids ≡ status_by (count_blocking fs ids)
status_of-status_by fs ids = ground (arith, any_blocking-count fs ids)

-- the settlement facts of a memory, ahead of facts that are no reports
pub settlement-Reports :
    (m : ReviewMemory) (head : String) (incarnation : ℕ) (xs : List Settled)
    → StatusSound m
    → All (Reports (at_rest m)) (fact_routes xs)
    → All (Reports (at_rest m)) (fact_routes (settlement_facts m head incarnation ++ xs))
settlement-Reports m head incarnation xs (inl p) h = rw p (tt, ((refl, refl), h))
settlement-Reports m head incarnation xs (inr p) h = elim (Bool-cases (is_judged m.status)) [
  | inl q ↦
      rw q (tt, ((refl, refl), (tt, (inr (p ∙ status_of-status_by m.findings m.dismissed), h))))
  | inr q ↦ rw q (tt, ((refl, refl), h))
]

origin-Reports :
    (m : ReviewMemory) (b : PubRecord)
    → All (Reports (at_rest m)) (fact_routes (resolution (held b)))
origin-Reports m b = elim (Bool-cases (is_faulted_origin b.was)) [
  | inl p ↦ rw p (tt, (tt, tt))
  | inr p ↦ rw p tt
]

resolution-Reports :
    (m : ReviewMemory) (b : Pub) → All (Reports (at_rest m)) (fact_routes (resolution b))
resolution-Reports m idle = tt
resolution-Reports m (stray x) = tt
resolution-Reports m (held b) = origin-Reports m b

cancellation-Reports :
    (m : ReviewMemory) (id : String) (b : Pub)
    → All (Reports (at_rest m)) (fact_routes (cancellation id b))
cancellation-Reports m id idle = tt
cancellation-Reports m id (stray x) = tt
cancellation-Reports m id (held p) =
    elim (Bool-cases (is_carried id (held p) && is_faulted_phase p.phase)) [
      | inl q ↦ rw q (tt, (tt, tt))
      | inr q ↦ rw q tt
    ]

abbrev FiredReports : Option Fired → Type 0
FiredReports none = Unit
FiredReports (some f) = All (Reports f.0) f.1

judged-Reports :
    (digest : String → ℕ → String) (r : RoundOpen) (a : RoundAnswer)
    → FiredReports (some (on_answer digest r a))
unfolding on_answer judge unable round_moved
judged-Reports digest r (reviewed fs lineage) = (tt, tt)
judged-Reports digest r (RoundAnswer.deferred blocker) = tt
judged-Reports digest r (RoundAnswer.moved current) = (tt, tt)
judged-Reports digest r (unable_to category) = (tt, (inl refl, (tt, tt)))

publish-Reports :
    (q : Publishable) (a : PublishAnswer) → StatusSound q.mem → FiredReports (some (on_publish q a))
unfolding on_publish fold_landed fold_moved fold_blocked fold_fault
publish-Reports q PublishAnswer.landed h = (
  tt,
  settlement-Reports (settled_memory q.mem) q.head q.incarnation (resolution q.mem.publication) h
      (resolution-Reports (settled_memory q.mem) q.mem.publication),
)
publish-Reports q (PublishAnswer.deferred blocker) h = tt
publish-Reports q (PublishAnswer.moved current) h = (
  tt,
  resolution-Reports (record q.mem { provisional = q.findings; publication = idle })
      q.mem.publication,
)
publish-Reports q (PublishAnswer.blocked refusal) h =
    let m = record q.mem { publication = held (blocked_record (blocked_of q refusal)) } in
    (
      tt,
      settlement-Reports m q.head q.incarnation (resolution q.mem.publication) h
          (resolution-Reports m q.mem.publication),
    )
publish-Reports q (PublishAnswer.faulted reason) h = (tt, (tt, (tt, tt)))

recovered-Reports :
    (r : RecoverFact) (m : ReviewMemory) (b : Pub)
    → FiredReports (fired (at_rest m) (recover_pub r m b))
unfolding recover_pub
recovered-Reports r m idle = (tt, tt)
recovered-Reports r m (stray x) = (tt, tt)
recovered-Reports r m (held b) =
    elim (Bool-cases
      (not (r.target == "review") || not (is_retained b.phase) || not (r.op == b.op))) [
        | inl c ↦ rw c (tt, tt)
        | inr c ↦ rw c (tt, tt)
      ]

recounted-StatusSound : (m : ReviewMemory) → StatusSound (recounted m)
recounted-StatusSound m = elim (Bool-cases (is_judged m.status)) [
  | inl p ↦ rw p (inr refl)
  | inr p ↦ rw p (inl p)
]

dismissed-Reports :
    (d : DismissFact) (m : ReviewMemory) → FiredReports (fired (at_rest m) (dismiss d m))
unfolding dismiss
dismissed-Reports d m =
    let u = dismissed_memory d.finding_id m in
    elim (Bool-cases (has_id d.finding_id m.findings)) [
      | inl q ↦ rw q (
        tt,
        settlement-Reports (recounted u) u.head u.incarnation
            (cancellation d.finding_id m.publication) (recounted-StatusSound u)
            (cancellation-Reports (recounted u) d.finding_id m.publication),
      )
      | inr q ↦ rw q (tt, cancellation-Reports u d.finding_id m.publication)
    ]

open-Reports :
    (w : HeadWork) (m : ReviewMemory) (op : Option String)
    → FiredReports (fired_or (at_rest m) (open_round w m op))
open-Reports w m none = tt
open-Reports w m (some op) = (tt, tt)

start-Reports :
    (digest : String → ℕ → String) (w : HeadWork) (m : ReviewMemory)
    → FiredReports (fired_or (at_rest m) (start digest w m))
unfolding start start_refreshed
start-Reports digest w m = elim (Bool-cases (is_refreshed w.relation)) [
  | inl p ↦ rw p (elim (Bool-cases (is_nil (live m.provisional m.dismissed))) [
    | inl q ↦ rw q (tt, tt)
    | inr q ↦ rw q (tt, tt)
  ])
  | inr p ↦ rw p (open-Reports w m (operation m.subject w.head w.incarnation))
]

wake_round-Reports :
    (d : RoundDeferred) (w : RoundWake) → FiredReports (fired_or (waiting d) (wake_deferred d w))
unfolding wake_deferred
wake_round-Reports d w = elim (Bool-cases (wakes w d.operation d.attempt d.blocker)) [
  | inl p ↦ rw p (tt, tt)
  | inr p ↦ rw p tt
]

wake_publication-Reports :
    (d : PublicationDeferred) (w : RoundWake)
    → FiredReports (fired_or (put_off d) (wake_publication d w))
unfolding wake_publication
wake_publication-Reports d w = elim (Bool-cases (wakes w d.operation d.attempt d.blocker)) [
  | inl p ↦ rw p (tt, tt)
  | inr p ↦ rw p tt
]

fire-FiredReports :
    (digest : String → ℕ → String) (p : ReviewPlace) (e : ReviewEvent)
    → PlaceSound p
    → FiredReports (fire digest p e)
unfolding fire recover end end_deferred end_publication_deferred drain
fire-FiredReports digest (at_rest m) (headed w) h = start-Reports digest w m
fire-FiredReports digest (at_rest m) (recovered r) h = recovered-Reports r m m.publication
fire-FiredReports digest (at_rest m) (dismissed d) h = dismissed-Reports d m
fire-FiredReports digest (at_rest m) (closed c) h = (tt, tt)
fire-FiredReports digest (in_round r) (answered a) h = judged-Reports digest r a
fire-FiredReports digest (publishing q) (published a) h = publish-Reports q a h.3
fire-FiredReports digest (waiting d) (woken w) h = wake_round-Reports d w
fire-FiredReports digest (put_off d) (woken w) h = wake_publication-Reports d w
fire-FiredReports digest p e h = ground arith

-- What a transition of the review loop mails to readiness agrees with the memory that it leaves at rest:
-- a findings fact counts that memory's findings and those of them that block and are not dismissed, and
-- a review fact is "unable", or "clear" exactly when that count is 0 and "blocking" otherwise. While a
-- round or a publication is out, and after the end, neither fact is mailed.
pub fire-Reports :
    (digest : String → ℕ → String) (p q : ReviewPlace) (e : ReviewEvent) (ms : List Mail)
    → PlaceSound p
    → fire digest p e ≡ some (q, ms)
    → All (Reports q) ms
fire-Reports digest p q e ms h r = subst FiredReports r (fire-FiredReports digest p e h)
