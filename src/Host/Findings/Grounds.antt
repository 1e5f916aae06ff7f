-- ===== src/Host/Findings/Grounds.antt =====
-- What stands behind the calls of the publish gate, and what its search for published findings shows.
use hamsterdan.Base.{
  String, Bool, true, false, some, List, [], ◌∷◌, ◌≡◌, ◌⊎◌, inl, inr, refl, All, All-map,
}
use hamsterdan.Colors.{Finding, Publishable}
use hamsterdan.Review.Protocol.{PublishAnswer, landed}
use hamsterdan.Host.Broker.{PublicationResult}
use hamsterdan.Host.Announce.{is_held}
use hamsterdan.Host.Publish.{Proof, proven, denied, unproven, prove_with}
use hamsterdan.Host.Findings.{
  Tried, returned, unstaged, refused, raised, FindingPublication, FindingsReads, FindingsCall,
  finds, reads_claim, posts_all, posts, resolves, Published, expected, capability_denial,
  refutation, publication, keep, seek_with, seek,
}

-- the result proves that the publication is held
abbrev pub Proves : PublicationResult → Type 0
Proves r = prove_with is_held r ≡ proven

-- the batch carries the publication
abbrev pub Carries : List FindingPublication → FindingPublication → Type 0
Carries [] p = ⊥
Carries (q ∷ qs) p = (p ≡ q) ⊎ Carries qs p

-- what holds if the publication landed
abbrev pub IfLanded : Type 0 → PublishAnswer → Type 0
IfLanded T landed = T
IfLanded T _ = Unit

pub IfLanded-map : (T S : Type 0) (a : PublishAnswer) → (T → S) → IfLanded T a → IfLanded S a
IfLanded-map T S landed f h = f h
IfLanded-map T S (PublishAnswer.deferred b) f h = tt
IfLanded-map T S (PublishAnswer.moved c) f h = tt
IfLanded-map T S (PublishAnswer.blocked r) f h = tt
IfLanded-map T S (PublishAnswer.faulted e) f h = tt

-- a proof, or a terminal that is not landed
pub proof-cases :
    (p : Proof)
    → (p ≡ proven) ⊎ ((a : PublishAnswer) × (refutation p ≡ some a) × ((T : Type 0) → IfLanded T a))
proof-cases proven = inl refl
proof-cases denied = inr (PublishAnswer.blocked capability_denial, refl, (λ T. tt))
proof-cases (unproven e) = inr (PublishAnswer.faulted e, refl, (λ T. tt))

module _ (digest : String → String) (reads : FindingsReads) (work : Publishable) where
  abbrev pub IsUnheld : Finding → Type 0
  IsUnheld f = reads.find (publication digest reads work f).operation ≡ returned false

  -- the publication is that of one of the findings, which was not found published
  abbrev pub Among : FindingPublication → List Finding → Type 0
  Among p [] = ⊥
  Among p (f ∷ fs) = (IsUnheld f × (p ≡ publication digest reads work f)) ⊎ Among p fs

  abbrev pub IsAuthorized : Type 0
  IsAuthorized = reads.claim ≡ returned (expected work)

  -- what stands behind a call
  abbrev pub IsFenced : FindingsCall → Type 0
  IsFenced (posts_all ps) = IsAuthorized × All (λ p. Among p work.findings) ps
  IsFenced (posts p) = IsAuthorized × Among p work.findings
  IsFenced (resolves head) = IsAuthorized × (head ≡ work.head)
  IsFenced (finds op head) = head ≡ work.head
  IsFenced reads_claim = Unit

  -- it was found published
  abbrev pub IsFound : Finding → Type 0
  IsFound f = reads.find (publication digest reads work f).operation ≡ returned true

  -- it was published by itself, with a result that proves it held
  abbrev pub IsSolo : Finding → Type 0
  IsSolo f =
      (r : PublicationResult) × (reads.finding (publication digest reads work f) ≡ returned r)
      × Proves r

  -- every result of the batch proves it held
  abbrev pub IsHeld : List FindingPublication → Type 0
  IsHeld ps = (rs : List PublicationResult) × (reads.findings ps ≡ returned rs) × All Proves rs

  -- it was carried by such a batch
  abbrev pub IsBatched : Finding → Type 0
  IsBatched f =
      (ps : List FindingPublication) × Carries ps (publication digest reads work f) × IsHeld ps

  abbrev pub IsShown : Finding → Type 0
  IsShown f = IsFound f ⊎ IsBatched f ⊎ IsSolo f

  abbrev pub IsProven : PublishAnswer → Type 0
  IsProven landed = All IsShown work.findings
  IsProven _ = Unit

  abbrev pub Fenced : Published → Type 0
  Fenced p = All IsFenced p.1 × IsProven p.0

  abbrev pub SeekSound : List Finding → Tried (List Finding) → Type 0
  SeekSound fs (returned pending) =
      All (λ f. Among (publication digest reads work f) fs) pending
      × (All IsShown pending → All IsShown fs)
  SeekSound fs _ = Unit

  pub keep-SeekSound :
      (f : Finding) (fs : List Finding) (b : Bool) (o : Tried (List Finding))
      → reads.find (publication digest reads work f).operation ≡ returned b
      → SeekSound fs o
      → SeekSound (f ∷ fs) (keep digest reads work f b o)
  keep-SeekSound f fs true (returned ps) p h =
      (All-map _ _ (λ x m. inr m) ps h.0, (λ g. (inl p, h.1 g)))
  keep-SeekSound f fs false (returned ps) p h =
      ((inl (p, refl), All-map _ _ (λ x m. inr m) ps h.0), (λ g. (g.0, h.1 g.1)))
  keep-SeekSound f fs true (unstaged b) p h = tt
  keep-SeekSound f fs true (refused b) p h = tt
  keep-SeekSound f fs true (raised b) p h = tt
  keep-SeekSound f fs false (unstaged b) p h = tt
  keep-SeekSound f fs false (refused b) p h = tt
  keep-SeekSound f fs false (raised b) p h = tt

  pub seek_with-SeekSound :
      (f : Finding) (fs : List Finding) (o : Tried Bool)
      (rest : Tried (List Finding) × List FindingsCall)
      → reads.find (publication digest reads work f).operation ≡ o
      → SeekSound fs rest.0 × All IsFenced rest.1
      → SeekSound (f ∷ fs) (seek_with digest reads work f o rest).0
        × All IsFenced (seek_with digest reads work f o rest).1
  seek_with-SeekSound f fs (returned b) rest p h = (keep-SeekSound f fs b rest.0 p h.0, (refl, h.1))
  seek_with-SeekSound f fs (unstaged b) rest p h = (tt, (refl, tt))
  seek_with-SeekSound f fs (refused b) rest p h = (tt, (refl, tt))
  seek_with-SeekSound f fs (raised b) rest p h = (tt, (refl, tt))

  pub seek-SeekSound :
      (fs : List Finding)
      → SeekSound fs (seek digest reads work fs).0 × All IsFenced (seek digest reads work fs).1
  unfolding seek
  seek-SeekSound [] = ((tt, (λ h. tt)), tt)
  seek-SeekSound (f ∷ fs) =
      seek_with-SeekSound f fs (reads.find (publication digest reads work f).operation)
        (seek digest reads work fs) refl (seek-SeekSound fs)
