-- ===== src/Host/Announce/Fence.antt =====
-- Under which authority readiness is announced, and what a landed announcement proves.
use hamsterdan.Base.{
  String, Bool, true, false, not, ◌&&◌, Option, none, some, ◌≡◌, ◌⊎◌, inl, inr, refl, sym, ap, ◌∙◌,
  arith, All, Bool-cases, ◌⧺◌,
}
use mathlib.Core.Path.{subst}
use hamsterdan.Colors.{AnnounceReq}
use hamsterdan.Mut.Protocol.{CurrentClaim}
use hamsterdan.Ready.Protocol.{Answer, landed, blocked, faulted}
use hamsterdan.Host.Broker.{PublicationResult}
use hamsterdan.Host.Rerun.{claim_eq}
use hamsterdan.Host.Rerun.Fence.{claim_eq-eq}
use hamsterdan.Host.Announce.{
  Outcome, returned, unstaged, unreachable, raised, AnnounceReads, AnnounceCall, finds, reads_claim,
  publishes, resolves, Announced, expected, is_held, prove, resolve_then, publish_then, on_claim,
  on_find, announce_gate,
}

prove-cases :
    (r : PublicationResult)
    → ((prove r ≡ landed) × (r.capability_available ≡ true) × (is_held r.status ≡ true))
      ⊎ (prove r ≡ blocked)
      ⊎ ((reason : String) × (prove r ≡ faulted reason))
unfolding prove
prove-cases r = elim (Bool-cases r.capability_available) [
  | inr q ↦ inr (inl (ground (arith, q)))
  | inl q ↦ elim (Bool-cases (is_held r.status)) [
    | inl k ↦ inl (ground (arith, q, k), q, k)
    | inr k ↦ inr (inr ("unclassified publication status '" ⧺ r.status ⧺ "'", ground (arith, q, k)))
  ]
]

module _ (reads : AnnounceReads) (work : AnnounceReq) where
  -- no announcement is held, the claim is the work's, and the base is current if it has to be
  abbrev pub IsAuthorized : Type 0
  IsAuthorized =
      (reads.find ≡ returned false)
      × (reads.claim ≡ returned (expected work))
      × ((work.strict_base && not work.base_current) ≡ false)

  abbrev pub IsFenced : AnnounceCall → Type 0
  IsFenced (publishes op head) = IsAuthorized × (op ≡ work.op) × (head ≡ work.head)
  IsFenced (resolves head) = IsAuthorized × (head ≡ work.head)
  IsFenced (finds op head) = (op ≡ work.op) × (head ≡ work.head)
  IsFenced reads_claim = Unit

  -- a landed announcement is held, or published with a result that proves it
  abbrev pub IsProven : Answer → Type 0
  IsProven landed =
      (reads.find ≡ returned true)
      ⊎ ((r : PublicationResult) × (reads.publish ≡ returned r)
          × (r.capability_available ≡ true)
          × (is_held r.status ≡ true))
  IsProven _ = Unit

  abbrev pub Fenced : Announced → Type 0
  Fenced p = All IsFenced p.1 × IsProven p.0

  prove-IsProven : (r : PublicationResult) → reads.publish ≡ returned r → IsProven (prove r)
  prove-IsProven r p = elim (prove-cases r) [
    | inl q ↦ subst IsProven (sym q.0) (inr (r, p, q.1, q.2))
    | inr (inl q) ↦ subst IsProven (sym q) tt
    | inr (inr (reason, q)) ↦ subst IsProven (sym q) tt
  ]

  resolve-Fenced :
      (o : Option (Outcome (Unit {0}))) (r : PublicationResult)
      → IsAuthorized
      → reads.publish ≡ returned r
      → Fenced (resolve_then reads work o r)
  resolve-Fenced none r h p = (tt, prove-IsProven r p)
  resolve-Fenced (some (returned u)) r h p = (((h, refl), tt), prove-IsProven r p)
  resolve-Fenced (some (unstaged b)) r h p = (((h, refl), tt), tt)
  resolve-Fenced (some unreachable) r h p = (((h, refl), tt), tt)
  resolve-Fenced (some (raised e)) r h p = (((h, refl), tt), tt)

  publish-Fenced :
      (o : Outcome PublicationResult)
      → reads.publish ≡ o
      → IsAuthorized
      → Fenced (publish_then reads work o)
  publish-Fenced (returned r) p h =
      let g = resolve-Fenced reads.resolve r h p in (((h, refl, refl), g.0), g.1)
  publish-Fenced (unstaged b) p h = (((h, refl, refl), tt), tt)
  publish-Fenced unreachable p h = (((h, refl, refl), tt), tt)
  publish-Fenced (raised e) p h = (((h, refl, refl), tt), tt)

  claim-Fenced :
      (o : Outcome CurrentClaim)
      → reads.claim ≡ o
      → reads.find ≡ returned false
      → Fenced (on_claim reads work o)
  unfolding on_claim
  claim-Fenced (unstaged b) p f = ((tt, tt), tt)
  claim-Fenced unreachable p f = ((tt, tt), tt)
  claim-Fenced (raised e) p f = ((tt, tt), tt)
  claim-Fenced (returned current) p f =
      elim (Bool-cases (work.strict_base && not work.base_current)) [
        | inl q ↦ rw q ((tt, tt), tt)
        | inr q ↦ elim (Bool-cases (claim_eq current (expected work))) [
          | inr k ↦ rw (q, k) ((tt, tt), tt)
          | inl k ↦
              rw (q, k)
                (let c = p ∙ ap returned (claim_eq-eq current (expected work) k) in
                  let g = publish-Fenced reads.publish refl (f, c, q) in ((tt, g.0), g.1))
        ]
      ]

  find-Fenced : (o : Outcome Bool) → reads.find ≡ o → Fenced (on_find reads work o)
  unfolding on_find
  find-Fenced (unstaged b) p = (((refl, refl), tt), tt)
  find-Fenced unreachable p = (((refl, refl), tt), tt)
  find-Fenced (raised e) p = (((refl, refl), tt), tt)
  find-Fenced (returned true) p = (((refl, refl), tt), inl p)
  find-Fenced (returned false) p =
      let g = claim-Fenced reads.claim refl p in (((refl, refl), g.0), g.1)

-- Whatever its collaborators answer, the announce gate publishes readiness only if no announcement of the
-- operation is held, the claim read equals the request's in every field with the pull request
-- running, and a base that has to be current is; it publishes the request's own operation and head,
-- and resolves stale threads only behind that. An announcement that it reports landed was found held,
-- or was published with a result that proves it.
pub announce-Fenced :
    (reads : AnnounceReads) (work : AnnounceReq) → Fenced reads work (announce_gate reads work)
unfolding announce_gate
announce-Fenced reads work = find-Fenced reads work reads.find refl
