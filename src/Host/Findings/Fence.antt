-- ===== src/Host/Findings/Fence.antt =====
-- Under which authority findings are published, and what a landed publication proves.
use hamsterdan.Base.{
  String, Bool, true, false, List, [], ◌∷◌, ◌≡◌, inl, inr, refl, ap, ◌∙◌, All, All-append,
  Bool-cases, if◌then◌else◌,
}
use hamsterdan.Colors.{Finding, Publishable}
use hamsterdan.Mut.Protocol.{CurrentClaim}
use hamsterdan.Review.Protocol.{PublishAnswer, landed}
use hamsterdan.Host.Rerun.{claim_eq}
use hamsterdan.Host.Rerun.Fence.{claim_eq-eq}
use hamsterdan.Host.Findings.{
  Tried, returned, unstaged, refused, raised, FindingPublication, FindingsReads, Published,
  on_raise, is_anchored, expected, publication, seek, post_rest, anchored, post_batch, post_all,
  on_claim, is_settled, on_pending, publish_gate,
}
use hamsterdan.Host.Findings.Grounds.{
  IfLanded, IfLanded-map, Among, IsAuthorized, IsFenced, IsShown, Fenced, SeekSound, seek-SeekSound,
}
use hamsterdan.Host.Findings.Posts.{
  resolve-Fenced, post_rest-Shows, IsCarried, anchored-Carries, alone-IsShown, batch-Shows,
}

module _ (digest : String → String) (reads : FindingsReads) (work : Publishable) where
  abbrev PendingSound : List Finding → Published → Type 0
  PendingSound pending p =
      All (IsFenced digest reads work) p.1 × IfLanded (All (IsShown digest reads work) pending) p.0

  post_batch-PendingSound :
      (pending : List Finding) (ps : List FindingPublication)
      → IsAuthorized digest reads work
      → All (λ p. Among digest reads work p work.findings) ps
      → All (IsCarried digest reads work ps) pending
      → All (λ f. Among digest reads work (publication digest reads work f) work.findings) pending
      → PendingSound pending (post_batch digest reads work pending ps)
  unfolding post_batch
  post_batch-PendingSound pending [] a m c h =
      let g = post_rest-Shows digest reads work pending a h in
      (
        g.0,
        IfLanded-map _ _ (post_rest digest reads work pending).0
            (alone-IsShown digest reads work pending c) g.1,
      )
  post_batch-PendingSound pending (p ∷ ps) a m c h =
      let g =
        batch-Shows digest reads work pending (p ∷ ps) (reads.findings (p ∷ ps)) refl c
          (post_rest-Shows digest reads work pending a h) in
      (((a, m), g.0), g.1)

  anchor-Among :
      (b : Bool) (p : FindingPublication) (ps : List FindingPublication)
      → Among digest reads work p work.findings
      → All (λ q. Among digest reads work q work.findings) ps
      → All (λ q. Among digest reads work q work.findings) (if b then p ∷ ps else ps)
  anchor-Among true p ps m h = (m, h)
  anchor-Among false p ps m h = h

  anchored-Among :
      (fs : List Finding)
      → All (λ f. Among digest reads work (publication digest reads work f) work.findings) fs
      → All (λ p. Among digest reads work p work.findings) (anchored digest reads work fs)
  anchored-Among [] h = tt
  anchored-Among (f ∷ fs) h =
      anchor-Among (is_anchored f) (publication digest reads work f) (anchored digest reads work fs)
        h.0 (anchored-Among fs h.1)

  post_all-PendingSound :
      (pending : List Finding)
      → IsAuthorized digest reads work
      → All (λ f. Among digest reads work (publication digest reads work f) work.findings) pending
      → PendingSound pending (post_all digest reads work pending)
  unfolding post_all
  post_all-PendingSound [] a h = resolve-Fenced digest reads work (Unit {0}) reads.resolve a tt
  post_all-PendingSound (f ∷ fs) a h =
      post_batch-PendingSound (f ∷ fs) (anchored digest reads work (f ∷ fs)) a
        (anchored-Among (f ∷ fs) h) (anchored-Carries digest reads work (f ∷ fs)) h

  claim-PendingSound :
      (pending : List Finding) (o : Tried CurrentClaim)
      → reads.claim ≡ o
      → All (λ f. Among digest reads work (publication digest reads work f) work.findings) pending
      → PendingSound pending (on_claim digest reads work pending o)
  unfolding on_claim
  claim-PendingSound pending (unstaged b) p h = ((tt, tt), tt)
  claim-PendingSound pending (refused b) p h = ((tt, tt), tt)
  claim-PendingSound pending (raised b) p h = ((tt, tt), tt)
  claim-PendingSound pending (returned current) p h =
      elim (Bool-cases (claim_eq current (expected work))) [
        | inr k ↦ rw k ((tt, tt), tt)
        | inl k ↦ rw k (
            let g =
              post_all-PendingSound pending
                (p ∙ ap returned (claim_eq-eq current (expected work) k)) h in
            ((tt, g.0), g.1))
      ]

  settled-PendingSound :
      (pending : List Finding)
      → is_settled digest reads work pending ≡ true
      → All (IsShown digest reads work) pending
  settled-PendingSound [] p = tt
  settled-PendingSound (f ∷ fs) p = absurd (cc)

  pending-PendingSound :
      (pending : List Finding)
      → All (λ f. Among digest reads work (publication digest reads work f) work.findings) pending
      → PendingSound pending (on_pending digest reads work pending)
  unfolding on_pending
  pending-PendingSound pending h = elim (Bool-cases (is_settled digest reads work pending)) [
    | inl q ↦ rw q (tt, settled-PendingSound pending q)
    | inr q ↦ rw q (claim-PendingSound pending reads.claim refl h)
  ]

  pending-IsProven :
      (pending : List Finding) (p : Published)
      → (All (IsShown digest reads work) pending → All (IsShown digest reads work) work.findings)
      → PendingSound pending p
      → Fenced digest reads work p
  pending-IsProven pending (landed, cs) f h = (h.0, f h.1)
  pending-IsProven pending (PublishAnswer.deferred b, cs) f h = h
  pending-IsProven pending (PublishAnswer.moved b, cs) f h = h
  pending-IsProven pending (PublishAnswer.blocked b, cs) f h = h
  pending-IsProven pending (PublishAnswer.faulted b, cs) f h = h

  raise-Fenced :
      (o : Tried (List Finding))
      → SeekSound digest reads work work.findings o
      → Fenced digest reads work (on_raise o (on_pending digest reads work))
  raise-Fenced (unstaged b) h = (tt, tt)
  raise-Fenced (refused b) h = (tt, tt)
  raise-Fenced (raised b) h = (tt, tt)
  raise-Fenced (returned pending) h =
      pending-IsProven pending (on_pending digest reads work pending) h.1
        (pending-PendingSound pending h.0)

-- Whatever its collaborators answer, the publish gate publishes only under a claim read that equals the
-- request's in every field with the pull request running, only findings of the request that were not
-- found published, under their own identities, and resolves stale threads only under that claim. If
-- it reports the publication landed, then each finding of the request was found published, or was
-- carried by a batch all of whose results prove it held, or published by itself with such a result.
pub findings-Fenced :
    (digest : String → String) (reads : FindingsReads) (work : Publishable)
    → Fenced digest reads work (publish_gate digest reads work)
unfolding publish_gate
findings-Fenced digest reads work =
    let s = seek-SeekSound digest reads work work.findings in
    let g = raise-Fenced digest reads work (seek digest reads work work.findings).0 s.0 in
    (
      All-append _ (seek digest reads work work.findings).1
          (on_raise (seek digest reads work work.findings).0 (on_pending digest reads work)).1 s.1
          g.0,
      g.1,
    )
