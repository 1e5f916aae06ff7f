-- ===== src/Host/Findings/Posts.antt =====
-- What the publications of the publish gate show.
use hamsterdan.Base.{
  String, Bool, true, false, Option, none, some, List, [], ◌∷◌, ◌≡◌, ◌⊎◌, inl, inr, refl, All,
  All-map, if◌then◌else◌,
}
use hamsterdan.Colors.{Finding, Publishable}
use hamsterdan.Review.Protocol.{PublishAnswer}
use hamsterdan.Host.Broker.{PublicationResult}
use hamsterdan.Host.Announce.{is_held}
use hamsterdan.Host.Publish.{prove_with}
use hamsterdan.Host.Findings.{
  Tried, returned, unstaged, refused, raised, FindingPublication, FindingsReads, posts, Published,
  on_raise, is_anchored, unless, recorded, refutation, first_unproven, publication, resolve_then,
  post_rest, anchored,
}
use hamsterdan.Host.Findings.Grounds.{
  Proves, Carries, IfLanded, IfLanded-map, proof-cases, Among, IsAuthorized, IsFenced, IsSolo,
  IsHeld, IsShown,
}

module _ (digest : String → String) (reads : FindingsReads) (work : Publishable) where
  pub resolve-Fenced :
      (T : Type 0) (o : Option (Tried (Unit {0})))
      → IsAuthorized digest reads work
      → T
      → All (IsFenced digest reads work) (resolve_then digest reads work o).1
        × IfLanded T (resolve_then digest reads work o).0
  resolve-Fenced T none a t = (tt, t)
  resolve-Fenced T (some (returned u)) a t = (((a, refl), tt), t)
  resolve-Fenced T (some (unstaged b)) a t = (((a, refl), tt), tt)
  resolve-Fenced T (some (refused b)) a t = (((a, refl), tt), tt)
  resolve-Fenced T (some (raised b)) a t = (((a, refl), tt), tt)

  -- calls that are fenced, and what a landed publication shows
  abbrev pub Shows : List Finding → Published → Type 0
  Shows fs p =
      All (IsFenced digest reads work) p.1
      × IfLanded (All (λ f. (is_anchored f ≡ true) ⊎ IsSolo digest reads work f) fs) p.0

  pub IsSolo-Shows :
      (f : Finding) (fs : List Finding) (o : Tried PublicationResult) (rest : Published)
      → reads.finding (publication digest reads work f) ≡ o
      → Shows fs rest
      → All
          (IsFenced digest reads work)
          (on_raise o (λ r. unless (refutation (prove_with is_held r)) rest)).1
        × IfLanded
            (All (λ f. (is_anchored f ≡ true) ⊎ IsSolo digest reads work f) (f ∷ fs))
            (on_raise o (λ r. unless (refutation (prove_with is_held r)) rest)).0
  IsSolo-Shows f fs (unstaged b) rest p h = (tt, tt)
  IsSolo-Shows f fs (refused b) rest p h = (tt, tt)
  IsSolo-Shows f fs (raised b) rest p h = (tt, tt)
  IsSolo-Shows f fs (returned r) rest p h = elim (proof-cases (prove_with is_held r)) [
    | inl q ↦ rw q (h.0, IfLanded-map _ _ rest.0 (λ g. (inr (r, p, q), g)) h.1)
    | inr (a, q, n) ↦ rw q (tt, n _)
  ]

  pub anchor-Shows :
      (f : Finding) (fs : List Finding) (b : Bool) (rest : Published)
      → is_anchored f ≡ b
      → IsAuthorized digest reads work
      → Among digest reads work (publication digest reads work f) work.findings
      → Shows fs rest
      → Shows (f ∷ fs) (
          if b
          then rest
          else recorded (posts (publication digest reads work f)) (
              on_raise
                (reads.finding (publication digest reads work f))
                (λ r. unless (refutation (prove_with is_held r)) rest)))
  anchor-Shows f fs true rest p a m h = (h.0, IfLanded-map _ _ rest.0 (λ t. (inl p, t)) h.1)
  anchor-Shows f fs false rest p a m h =
      let k = IsSolo-Shows f fs (reads.finding (publication digest reads work f)) rest refl h in
      (((a, m), k.0), k.1)

  pub post_rest-Shows :
      (fs : List Finding)
      → IsAuthorized digest reads work
      → All (λ f. Among digest reads work (publication digest reads work f) work.findings) fs
      → Shows fs (post_rest digest reads work fs)
  unfolding post_rest
  post_rest-Shows [] a h = resolve-Fenced (Unit {0}) reads.resolve a tt
  post_rest-Shows (f ∷ fs) a h =
      anchor-Shows f fs (is_anchored f) (post_rest digest reads work fs) refl a h.0
        (post_rest-Shows fs a h.1)

  -- a finding without an anchor, or one that the batch carries
  abbrev pub IsCarried : List FindingPublication → Finding → Type 0
  IsCarried ps f = (is_anchored f ≡ false) ⊎ Carries ps (publication digest reads work f)

  pub head-IsCarried :
      (f : Finding) (ps : List FindingPublication) (b : Bool)
      → is_anchored f ≡ b
      → IsCarried (if b then publication digest reads work f ∷ ps else ps) f
  head-IsCarried f ps true p = inr (inl refl)
  head-IsCarried f ps false p = inl p

  pub weaken-IsCarried :
      (b : Bool) (p : FindingPublication) (ps : List FindingPublication) (f : Finding)
      → IsCarried ps f
      → IsCarried (if b then p ∷ ps else ps) f
  weaken-IsCarried true p ps f (inl h) = inl h
  weaken-IsCarried true p ps f (inr h) = inr (inr h)
  weaken-IsCarried false p ps f h = h

  -- each finding with an anchor is in the batch
  pub anchored-Carries : (fs : List Finding) → All (IsCarried (anchored digest reads work fs)) fs
  anchored-Carries [] = tt
  anchored-Carries (f ∷ fs) = (
    head-IsCarried f (anchored digest reads work fs) (is_anchored f) refl,
    All-map _ _
        (weaken-IsCarried (is_anchored f) (publication digest reads work f)
          (anchored digest reads work fs))
        fs (anchored-Carries fs),
  )

  -- shown by itself or carried, and if carried then in a batch that holds
  pub joined-IsShown :
      (ps : List FindingPublication) (fs : List Finding)
      → IsHeld digest reads work ps
      → All (IsCarried ps) fs
      → All (λ f. (is_anchored f ≡ true) ⊎ IsSolo digest reads work f) fs
      → All (IsShown digest reads work) fs
  joined-IsShown ps [] h c s = tt
  joined-IsShown ps (f ∷ fs) h (c, cs) (inr s, ss) = (inr (inr s), joined-IsShown ps fs h cs ss)
  joined-IsShown ps (f ∷ fs) h (inr c, cs) (inl s, ss) =
      (inr (inl (ps, c, h)), joined-IsShown ps fs h cs ss)
  joined-IsShown ps (f ∷ fs) h (inl c, cs) (inl s, ss) = absurd (cc)

  -- with no batch, no finding has an anchor
  pub alone-IsShown :
      (fs : List Finding)
      → All (IsCarried []) fs
      → All (λ f. (is_anchored f ≡ true) ⊎ IsSolo digest reads work f) fs
      → All (IsShown digest reads work) fs
  alone-IsShown [] c s = tt
  alone-IsShown (f ∷ fs) (c, cs) (inr s, ss) = (inr (inr s), alone-IsShown fs cs ss)
  alone-IsShown (f ∷ fs) (inl c, cs) (inl s, ss) = absurd (cc)
  alone-IsShown (f ∷ fs) (inr c, cs) (inl s, ss) = absurd c

  -- the results of a batch
  pub batch-cases :
      (rs : List PublicationResult)
      → ((first_unproven rs ≡ none) × All Proves rs)
        ⊎ ((a : PublishAnswer) × (first_unproven rs ≡ some a) × ((T : Type 0) → IfLanded T a))
  unfolding first_unproven
  batch-cases [] = inl (refl, tt)
  batch-cases (r ∷ rs) = elim (proof-cases (prove_with is_held r)) [
    | inr (a, q, n) ↦ rw q (inr (a, refl, n))
    | inl q ↦ rw q (elim (batch-cases rs) [
      | inl g ↦ rw g.0 (inl (refl, (refl, g.1)))
      | inr (a, g, n) ↦ rw g (inr (a, refl, n))
    ])
  ]

  -- a batch and what is posted after it
  abbrev pub then_rest : List Finding → Tried (List PublicationResult) → Published
  then_rest pending o =
      on_raise o (λ rs. unless (first_unproven rs) (post_rest digest reads work pending))

  pub batch-Shows :
      (pending : List Finding) (ps : List FindingPublication) (o : Tried (List PublicationResult))
      → reads.findings ps ≡ o
      → All (IsCarried ps) pending
      → Shows pending (post_rest digest reads work pending)
      → All (IsFenced digest reads work) (then_rest pending o).1
        × IfLanded (All (IsShown digest reads work) pending) (then_rest pending o).0
  batch-Shows pending ps (unstaged b) p c h = (tt, tt)
  batch-Shows pending ps (refused b) p c h = (tt, tt)
  batch-Shows pending ps (raised b) p c h = (tt, tt)
  batch-Shows pending ps (returned rs) p c h = elim (batch-cases rs) [
    | inl g ↦ rw g.0 (
      h.0,
      IfLanded-map _ _ (post_rest digest reads work pending).0
          (joined-IsShown ps pending (rs, p, g.1) c) h.1,
    )
    | inr (a, g, n) ↦ rw g (tt, n _)
  ]
