-- ===== src/Host/Findings.antt =====
-- `publish_gate` of V5PublicationGates (src/hamsterdan/host/v5/gates.py). What the publisher, the claim
-- reader and the resolver of stale threads answer is a parameter; the calls are recorded. `digest` is
-- the first 16 characters of the hexadecimal SHA-256 of a text.
pub mod Grounds
pub mod Posts
pub mod Fence
mod Examples
use hamsterdan.Base.{
  ℕ, String, Bool, true, false, not, ◌&&◌, ◌||◌, Option, none, some, is_some, List, [], ◌∷◌, ◌++◌,
  ◌==◌, eqb, map, if◌then◌else◌, ◌⧺◌,
}
use hamsterdan.Colors.{running, Location, Finding, Refusal, Publishable}
use hamsterdan.Mut.Protocol.{CurrentClaim}
use hamsterdan.Review.Identity.{is_marker_operation}
use hamsterdan.Review.Folds.{is_nil}
use hamsterdan.Review.Protocol.{PublishAnswer, landed, deferred, moved, blocked, faulted}
use hamsterdan.Host.Broker.{PublicationResult}
use hamsterdan.Host.Rerun.{claim_eq}
use hamsterdan.Host.Announce.{is_held}
use hamsterdan.Host.Publish.{Proof, proven, denied, unproven, prove_with}

-- What a call returns, or the exception that it raises: UnstagedCustodyError with its blocker, another
-- GitHubBoundaryError, a RuntimeError or ValueError with its reason.
pub data Tried {ℓ} (A : Type ℓ) : Type ℓ where
  returned : A → Tried A
  unstaged : String → Tried A
  refused : Refusal → Tried A
  raised : String → Tried A

-- FindingPublication, and the arguments of `finding`
pub record FindingPublication : Type 0 where
  pub operation : String
  pub text : String
  pub path : String
  pub line : ℕ
  pub related_locations : List Location
  pub suggestion : String

-- What the collaborators answer: `find` whether the operation is published, `findings` and `finding` the
-- results of a publication; `resolve` is `none` if there is no resolver.
pub record FindingsReads : Type 0 where
  pub find : String → Tried Bool
  pub claim : Tried CurrentClaim
  pub findings : List FindingPublication → Tried (List PublicationResult)
  pub finding : FindingPublication → Tried PublicationResult
  pub resolve : Option (Tried (Unit {0}))

pub data FindingsCall : Type 0 where
  finds : String → String → FindingsCall
  reads_claim : FindingsCall
  posts_all : List FindingPublication → FindingsCall
  posts : FindingPublication → FindingsCall
  resolves : String → FindingsCall

abbrev pub Published : Type 0
Published = PublishAnswer × List FindingsCall

-- the terminal of an exception, by its handler
abbrev pub on_raise {ℓ} : {A : Type ℓ} → Tried A → (A → Published) → Published
on_raise (returned x) next = next x
on_raise (unstaged blocker) next = (deferred blocker, [])
on_raise (refused refusal) next = (blocked refusal, [])
on_raise (raised reason) next = (faulted reason, [])

abbrev pub recorded : FindingsCall → Published → Published
recorded c p = (p.0, c ∷ p.1)

-- `_finding_operation`
unfoldable pub finding_operation : (String → String) → String → Finding → String
unfolding is_marker_operation
finding_operation digest op f =
    if is_marker_operation (op ⧺ ":" ⧺ f.id) then op ⧺ ":" ⧺ f.id else op ⧺ ":" ⧺ digest f.id

-- the path and the line are there
abbrev pub is_anchor : String → ℕ → Bool
is_anchor path line = not (path == "") && not (eqb line 0)

abbrev pub is_anchored : Finding → Bool
is_anchored f = is_anchor f.path f.line

abbrev pub anchors : List Location → List Location
anchors [] = []
anchors (l ∷ ls) = let rest = anchors ls in if is_anchor l.path l.line then l ∷ rest else rest

-- `_finding_arguments`, with the identity and the text
abbrev pub publication_of : (String → String) → String → Finding → FindingPublication
publication_of digest op f = record {
  operation = finding_operation digest op f;
  text = f.body;
  path = f.path;
  line = f.line;
  related_locations = anchors f.related_locations;
  suggestion = f.suggestion;
}

abbrev pub expected : Publishable → CurrentClaim
expected work = record {
  phase = running;
  incarnation = work.incarnation;
  head = work.head;
  base = work.base;
  policy = work.policy;
}

-- `blocked()` without an error
abbrev pub capability_denial : Refusal
capability_denial = record {
  failure_class = "capability_denial";
  provider_status = none;
  provider_detail = "none";
}

-- the terminal of a result that proves nothing
abbrev pub refutation : Proof → Option PublishAnswer
refutation proven = none
refutation denied = some (blocked capability_denial)
refutation (unproven reason) = some (faulted reason)

abbrev pub or_else : Option PublishAnswer → Option PublishAnswer → Option PublishAnswer
or_else none b = b
or_else (some a) b = some a

-- the first result that proves nothing
unfoldable pub first_unproven : List PublicationResult → Option PublishAnswer
unfolding prove_with
first_unproven [] = none
first_unproven (r ∷ rs) = or_else (refutation (prove_with is_held r)) (first_unproven rs)

-- the terminal if there is one, and else what follows
abbrev pub unless : Option PublishAnswer → Published → Published
unless none next = next
unless (some a) next = (a, [])

module _ (digest : String → String) (reads : FindingsReads) (work : Publishable) where
  abbrev pub publication : Finding → FindingPublication
  publication = publication_of digest work.op

  -- a finding that is not published is pending
  abbrev pub keep : Finding → Bool → Tried (List Finding) → Tried (List Finding)
  keep f true o = o
  keep f false (returned fs) = returned (f ∷ fs)
  keep f false o = o

  abbrev pub seek_with :
      Finding
      → Tried Bool
      → Tried (List Finding) × List FindingsCall
      → Tried (List Finding) × List FindingsCall
  seek_with f (returned is_found) rest =
      (keep f is_found rest.0, finds (publication f).operation work.head ∷ rest.1)
  seek_with f (unstaged b) rest = (unstaged b, finds (publication f).operation work.head ∷ [])
  seek_with f (refused r) rest = (refused r, finds (publication f).operation work.head ∷ [])
  seek_with f (raised e) rest = (raised e, finds (publication f).operation work.head ∷ [])

  -- the pending findings
  unfoldable pub seek : List Finding → Tried (List Finding) × List FindingsCall
  seek [] = (returned [], [])
  seek (f ∷ fs) = seek_with f (reads.find (publication f).operation) (seek fs)

  abbrev pub resolve_then : Option (Tried (Unit {0})) → Published
  resolve_then none = (landed, [])
  resolve_then (some o) = recorded (resolves work.head) (on_raise o (λ u. (landed, [])))

  -- the pending findings that have no anchor, one by one
  unfoldable pub post_rest : List Finding → Published
  unfolding prove_with
  post_rest [] = resolve_then reads.resolve
  post_rest (f ∷ fs) =
      let rest = post_rest fs in
      if is_anchored f
      then rest
      else recorded (posts (publication f)) (
          on_raise (reads.finding (publication f))
            (λ r. unless (refutation (prove_with is_held r)) rest))

  abbrev pub anchored : List Finding → List FindingPublication
  anchored [] = []
  anchored (f ∷ fs) = let rest = anchored fs in if is_anchored f then publication f ∷ rest else rest

  unfoldable pub post_batch : List Finding → List FindingPublication → Published
  unfolding post_rest first_unproven
  post_batch pending [] = post_rest pending
  post_batch pending (p ∷ ps) =
      recorded (posts_all (p ∷ ps))
        (on_raise (reads.findings (p ∷ ps)) (λ rs. unless (first_unproven rs) (post_rest pending)))

  -- under the claim
  unfoldable pub post_all : List Finding → Published
  unfolding post_batch
  post_all [] = resolve_then reads.resolve
  post_all (f ∷ fs) = post_batch (f ∷ fs) (anchored (f ∷ fs))

  unfoldable pub on_claim : List Finding → Tried CurrentClaim → Published
  unfolding post_all
  on_claim pending o = recorded reads_claim (
      on_raise o (λ current.
        if not (claim_eq current (expected work)) then (moved current, []) else post_all pending))

  -- nothing is pending, and there is nothing to resolve
  abbrev pub is_settled : List Finding → Bool
  is_settled pending = is_nil pending && not (is_nil work.findings && is_some reads.resolve)

  unfoldable pub on_pending : List Finding → Published
  unfolding on_claim
  on_pending pending = if is_settled pending then (landed, []) else on_claim pending reads.claim

  -- `publish_gate`
  unfoldable pub publish_gate : Published
  unfolding seek on_pending
  publish_gate = let s = seek work.findings in let p = on_raise s.0 on_pending in (p.0, s.1 ++ p.1)
