-- ===== src/Review/Forgets.antt =====
-- A review loop that has forgotten an operation never clears the fault of that operation.
use hamsterdan.Base.{
  ℕ, String, not, ◌||◌, Option, none, some, List, [], ◌∷◌, ◌++◌, ◌==◌, arith, Bool-cases, inl, inr,
  All, All-append, Dict,
}
use hamsterdan.Colors.{
  is_refreshed, HeadWork, RecoverFact, DismissFact, Finding, Pub, idle, held, stray, ReviewMemory,
  RoundOpen, RoundDeferred, RoundWake, Publishable, PublicationDeferred, Mail,
}
use hamsterdan.Review.Spares.{
  Avoids, EventAvoids, PubForgets, PlaceForgets, Spares, FactSpares, FiredSpares, routes-Spares,
  settlement-Spares, resolution-Spares, settled-Spares,
}
use hamsterdan.Review.Runs.{run_after}
use hamsterdan.Review.Identity.{operation}
use hamsterdan.Review.Custody.{live, is_judged, resolution}
use hamsterdan.Review.Folds.{
  open_round, start, start_refreshed, is_nil, judge, unable, round_moved, wakes, wake_deferred,
  wake_publication,
}
use hamsterdan.Review.Settle.{
  fold_landed, fold_moved, fold_blocked, fold_fault, faulted_pub, recover, recover_pub, is_retained,
  is_carried, cancelled_pub, cancellation, has_id, dismissed_memory, recounted, recount_facts,
  dismiss, end, end_deferred, end_publication_deferred, drain,
}
use hamsterdan.Review.Protocol.{
  ReviewPlace, at_rest, in_round, waiting, publishing, put_off, RoundAnswer, reviewed, unable_to,
  PublishAnswer, ReviewEvent, headed, recovered, dismissed, woken, answered, published, Fired,
  placed, fired_or, on_answer, on_publish, fire, run,
}

module _ (digest : String → ℕ → String) (o : String) where
  faulted-PubForgets :
      (b : Pub) (reason : String)
      → PubForgets digest o b
      → PubForgets digest o (faulted_pub b reason)
  faulted-PubForgets idle reason h = tt
  faulted-PubForgets (stray x) reason h = tt
  faulted-PubForgets (held p) reason h = h

  publish-FiredSpares :
      (q : Publishable) (a : PublishAnswer)
      → PlaceForgets digest o (publishing q)
      → FiredSpares digest o (some (on_publish q a))
  unfolding on_publish fold_landed fold_moved fold_blocked fold_fault
  publish-FiredSpares q PublishAnswer.landed h = (
    tt,
    (
      tt,
      settled-Spares digest o (record q.mem { provisional = []; publication = idle }) q.head
          q.incarnation q.mem.publication h.1,
    ),
  )
  publish-FiredSpares q (PublishAnswer.deferred blocker) h = (h, tt)
  publish-FiredSpares q (PublishAnswer.moved current) h = (
    tt,
    (
      tt,
      routes-Spares digest o (resolution q.mem.publication)
          (resolution-Spares digest o q.mem.publication h.1),
    ),
  )
  publish-FiredSpares q (PublishAnswer.blocked refusal) h =
      (h.0, (tt, settled-Spares digest o q.mem q.head q.incarnation q.mem.publication h.1))
  publish-FiredSpares q (PublishAnswer.faulted reason) h =
      (faulted-PubForgets q.mem.publication reason h.1, (tt, (tt, (tt, tt))))

  answer-FiredSpares :
      (r : RoundOpen) (a : RoundAnswer)
      → PlaceForgets digest o (in_round r)
      → FiredSpares digest o (some (on_answer digest r a))
  unfolding on_answer judge unable round_moved
  answer-FiredSpares r (reviewed fs lineage) h = ((h.1, h.1), (tt, tt))
  answer-FiredSpares r (RoundAnswer.deferred blocker) h = (h, tt)
  answer-FiredSpares r (RoundAnswer.moved current) h = (h.0, (tt, tt))
  answer-FiredSpares r (unable_to category) h = (h.0, (tt, (tt, (tt, tt))))

  -- a judged round forgets whatever publication the memory retained
  pub judged-FiredSpares :
      (r : RoundOpen) (fs : List Finding) (lineage : List (Dict String))
      → Avoids digest o r.head r.incarnation
      → FiredSpares digest o (some (on_answer digest r (reviewed fs lineage)))
  unfolding on_answer judge
  judged-FiredSpares r fs lineage h = ((h, h), (tt, tt))

  recover-FiredSpares :
      (r : RecoverFact) (m : ReviewMemory) (b : Pub)
      → PubForgets digest o m.publication
      → PubForgets digest o b
      → FiredSpares digest o (some (placed (at_rest m) (recover_pub r m b), recover_pub r m b))
  unfolding recover_pub
  recover-FiredSpares r m idle h g = (h, (tt, tt))
  recover-FiredSpares r m (stray x) h g = (h, (tt, tt))
  recover-FiredSpares r m (held b) h g =
      elim (Bool-cases
        (not (r.target == "review") || not (is_retained b.phase) || not (r.op == b.op))) [
          | inl c ↦ rw c (h, (tt, tt))
          | inr c ↦ rw c ((g, g), (tt, tt))
        ]

  cancelled-PubForgets :
      (id : String) (b : Pub) → PubForgets digest o b → PubForgets digest o (cancelled_pub id b)
  cancelled-PubForgets id idle h = tt
  cancelled-PubForgets id (stray x) h = tt
  cancelled-PubForgets id (held p) h = elim (Bool-cases (is_carried id (held p))) [
    | inl c ↦ rw c h
    | inr c ↦ rw c h
  ]

  cancellation-Spares :
      (id : String) (b : Pub)
      → PubForgets digest o b
      → All (FactSpares digest o) (cancellation id b)
  cancellation-Spares id idle h = tt
  cancellation-Spares id (stray x) h = tt
  cancellation-Spares id (held p) h = ground (arith)

  recounted-PubForgets :
      (m : ReviewMemory)
      → PubForgets digest o m.publication
      → PubForgets digest o (recounted m).publication
  recounted-PubForgets m h = elim (Bool-cases (is_judged m.status)) [
    | inl p ↦ rw p h
    | inr p ↦ rw p h
  ]

  dismiss-FiredSpares :
      (d : DismissFact) (m : ReviewMemory)
      → PubForgets digest o m.publication
      → FiredSpares digest o (some (placed (at_rest m) (dismiss d m), dismiss d m))
  unfolding dismiss
  dismiss-FiredSpares d m h =
      let u = dismissed_memory d.finding_id m in
      let fs = cancellation d.finding_id m.publication in
      let g = cancelled-PubForgets d.finding_id m.publication h in
      let c = cancellation-Spares d.finding_id m.publication h in
      elim (Bool-cases (has_id d.finding_id m.findings)) [
        | inl q ↦ rw q (
          recounted-PubForgets u g,
          (
            tt,
            routes-Spares digest o (recount_facts u ++ fs) (
                All-append (FactSpares digest o) (recount_facts u) fs
                  (settlement-Spares digest o (recounted u) u.head u.incarnation) c),
          ),
        )
        | inr q ↦ rw q (g, (tt, routes-Spares digest o fs c))
      ]

  start-FiredSpares :
      (w : HeadWork) (m : ReviewMemory)
      → PubForgets digest o m.publication
      → Avoids digest o w.head w.incarnation
      → FiredSpares digest o (fired_or (at_rest m) (start digest w m))
  unfolding start start_refreshed
  start-FiredSpares w m h a = elim (Bool-cases (is_refreshed w.relation)) [
    | inr p ↦ rw p (opens (operation m.subject w.head w.incarnation))
    | inl p ↦ rw p (elim (Bool-cases (is_nil (live m.provisional m.dismissed))) [
      | inl q ↦ rw q (h, (tt, tt))
      | inr q ↦ rw q ((a, a), (tt, tt))
    ])
  ]
    where
      opens : (op : Option String) → FiredSpares digest o (fired_or (at_rest m) (open_round w m op))
      opens none = tt
      opens (some op) = ((h, a), (tt, tt))

  wake_round-FiredSpares :
      (d : RoundDeferred) (w : RoundWake)
      → PlaceForgets digest o (waiting d)
      → FiredSpares digest o (fired_or (waiting d) (wake_deferred d w))
  unfolding wake_deferred
  wake_round-FiredSpares d w h = elim (Bool-cases (wakes w d.operation d.attempt d.blocker)) [
    | inl p ↦ rw p (h, (tt, tt))
    | inr p ↦ rw p tt
  ]

  wake_publication-FiredSpares :
      (d : PublicationDeferred) (w : RoundWake)
      → PlaceForgets digest o (put_off d)
      → FiredSpares digest o (fired_or (put_off d) (wake_publication d w))
  unfolding wake_publication
  wake_publication-FiredSpares d w h = elim (Bool-cases (wakes w d.operation d.attempt d.blocker)) [
    | inl p ↦ rw p (h, (tt, tt))
    | inr p ↦ rw p tt
  ]

  fire-FiredSpares :
      (p : ReviewPlace) (e : ReviewEvent)
      → PlaceForgets digest o p
      → EventAvoids digest o e
      → FiredSpares digest o (fire digest p e)
  unfolding fire recover end end_deferred end_publication_deferred drain
  fire-FiredSpares (at_rest m) (headed w) h s = start-FiredSpares w m h s
  fire-FiredSpares (at_rest m) (recovered r) h s = recover-FiredSpares r m m.publication h h
  fire-FiredSpares (at_rest m) (dismissed d) h s = dismiss-FiredSpares d m h
  fire-FiredSpares (in_round r) (answered a) h s = answer-FiredSpares r a h
  fire-FiredSpares (publishing q) (published a) h s = publish-FiredSpares q a h
  fire-FiredSpares (waiting d) (woken w) h s = wake_round-FiredSpares d w h
  fire-FiredSpares (put_off d) (woken w) h s = wake_publication-FiredSpares d w h
  fire-FiredSpares p e h s = ground arith

  join-FiredSpares :
      (ms : List Mail) (r : Option Fired)
      → All (Spares digest o) ms
      → FiredSpares digest o r
      → FiredSpares digest o (elim r [ none ↦ none | some r ↦ some (r.0, ms ++ r.1) ])
  join-FiredSpares ms none s h = tt
  join-FiredSpares ms (some r) s h = (h.0, All-append (Spares digest o) ms r.1 s h.1)

  pub run_after-FiredSpares :
      (es : List ReviewEvent) (f : Option Fired)
      → ((q : ReviewPlace) → PlaceForgets digest o q → FiredSpares digest o (run digest q es))
      → FiredSpares digest o f
      → FiredSpares digest o (run_after digest es f)
  unfolding run
  run_after-FiredSpares es none g h = tt
  run_after-FiredSpares es (some (q, ms)) g h = join-FiredSpares ms (run digest q es) h.1 (g q h.0)

  pub run-FiredSpares :
      (es : List ReviewEvent) (p : ReviewPlace)
      → PlaceForgets digest o p
      → All (EventAvoids digest o) es
      → FiredSpares digest o (run digest p es)
  unfolding run
  run-FiredSpares [] p h s = (h, tt)
  run-FiredSpares (e ∷ es) p h s =
      run_after-FiredSpares es (fire digest p e) (λ q g. run-FiredSpares es q g s.1)
        (fire-FiredSpares p e h s.0)
