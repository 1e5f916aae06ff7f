-- ===== src/Host/Announce.antt =====
-- `announce_gate` of V5PublicationGates (src/hamsterdan/host/v5/gates.py). What the publisher, the claim
-- reader and the resolver of stale threads answer is a parameter; the calls are recorded.
pub mod Fence
mod Examples
use hamsterdan.Base.{
  String, Bool, true, false, not, ◌&&◌, ◌||◌, Option, none, some, List, [], ◌∷◌, ◌==◌,
  if◌then◌else◌, ◌⧺◌,
}
use hamsterdan.Colors.{running, AnnounceReq, AMoved}
use hamsterdan.Mut.Protocol.{CurrentClaim}
use hamsterdan.Ready.Protocol.{Answer, landed, deferred, blocked, moved, faulted}
use hamsterdan.Host.Broker.{PublicationResult}
use hamsterdan.Host.Rerun.{claim_eq}

-- What a call returns, or the exception that it raises: UnstagedCustodyError with its blocker, another
-- GitHubBoundaryError, a RuntimeError or ValueError with its reason.
pub data Outcome {ℓ} (A : Type ℓ) : Type ℓ where
  returned : A → Outcome A
  unstaged : String → Outcome A
  unreachable : Outcome A
  raised : String → Outcome A

-- what the collaborators answer in one round; `resolve` is `none` if there is no resolver
pub record AnnounceReads : Type 0 where
  pub find : Outcome Bool
  pub claim : Outcome CurrentClaim
  pub publish : Outcome PublicationResult
  pub resolve : Option (Outcome (Unit {0}))

pub data AnnounceCall : Type 0 where
  finds : String → String → AnnounceCall
  reads_claim : AnnounceCall
  publishes : String → String → AnnounceCall
  resolves : String → AnnounceCall

abbrev pub Announced : Type 0
Announced = Answer × List AnnounceCall

-- the terminal of an exception, by its handler
abbrev pub on_raise {ℓ} : {A : Type ℓ} → Outcome A → (A → Announced) → Announced
on_raise (returned x) next = next x
on_raise (unstaged blocker) next = (deferred blocker, [])
on_raise unreachable next = (blocked, [])
on_raise (raised reason) next = (faulted reason, [])

abbrev pub expected : AnnounceReq → CurrentClaim
expected work = record {
  phase = running;
  incarnation = work.incarnation;
  head = work.head;
  base = work.base;
  policy = work.policy;
}

abbrev pub moved_of : CurrentClaim → AMoved
moved_of current = record {
  incarnation = current.incarnation;
  observed_head = current.head;
  observed_base = current.base;
  observed_policy = current.policy;
  observed_incarnation = current.incarnation;
  observed_phase = some current.phase;
}

-- `_HELD`
abbrev pub is_held : String → Bool
is_held status = status == "created" || status == "existing"

-- `_unproven`, and the terminal that it gives
unfoldable pub prove : PublicationResult → Answer
prove result =
    if not result.capability_available
    then blocked
    else if is_held result.status
    then landed
    else faulted ("unclassified publication status '" ⧺ result.status ⧺ "'")

module _ (reads : AnnounceReads) (work : AnnounceReq) where
  -- after the publication; the result is proven only once the stale threads are resolved
  abbrev pub resolve_then : Option (Outcome (Unit {0})) → PublicationResult → Announced
  resolve_then none result = (prove result, [])
  resolve_then (some o) result =
      let p = on_raise o (λ u. (prove result, [])) in (p.0, resolves work.head ∷ p.1)

  abbrev pub publish_then : Outcome PublicationResult → Announced
  publish_then o =
      let p = on_raise o (resolve_then reads.resolve) in (p.0, publishes work.op work.head ∷ p.1)

  unfoldable pub on_claim : Outcome CurrentClaim → Announced
  unfolding prove
  on_claim (unstaged blocker) = (deferred blocker, reads_claim ∷ [])
  on_claim unreachable = (blocked, reads_claim ∷ [])
  on_claim (raised reason) = (faulted reason, reads_claim ∷ [])
  on_claim (returned current) =
      if (work.strict_base && not work.base_current) || not (claim_eq current (expected work))
      then (moved (moved_of current), reads_claim ∷ [])
      else let p = publish_then reads.publish in (p.0, reads_claim ∷ p.1)

  unfoldable pub on_find : Outcome Bool → Announced
  unfolding on_claim
  on_find (unstaged blocker) = (deferred blocker, finds work.op work.head ∷ [])
  on_find unreachable = (blocked, finds work.op work.head ∷ [])
  on_find (raised reason) = (faulted reason, finds work.op work.head ∷ [])
  on_find (returned true) = (landed, finds work.op work.head ∷ [])
  on_find (returned false) = let p = on_claim reads.claim in (p.0, finds work.op work.head ∷ p.1)

-- `announce_gate`
unfoldable pub announce_gate : AnnounceReads → AnnounceReq → Announced
unfolding on_find
announce_gate reads work = on_find reads work reads.find
