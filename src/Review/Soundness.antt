-- ===== src/Review/Soundness.antt =====
-- What the review memory holds in every run: who owns the findings, and what the status says.
use hamsterdan.Base.{
  ℕ, String, true, false, not, ◌||◌, List, [], ◌∷◌, ◌++◌, ◌==◌, ◌≡◌, ◌⊎◌, inl, inr, refl, arith,
  Bool-cases, All,
}
use hamsterdan.Colors.{
  mem_text, HeadWork, RecoverFact, DismissFact, Finding, PubRecord, Pub, idle, held, stray,
  ReviewMemory,
}
use hamsterdan.Review.Custody.{live, status_of, is_judged}
use hamsterdan.Review.Folds.{is_nil, start_refreshed}
use hamsterdan.Review.Settle.{
  is_retained, recover_pub, has_id, is_carried, cancelled_pub, reopened, dismissed_memory,
  recounted, dismiss,
}
use hamsterdan.Review.Protocol.{
  ReviewPlace, at_rest, in_round, waiting, publishing, put_off, ended, placed,
}

-- no finding is one that the human waved off
abbrev pub AllLive : List String → List Finding → Type 0
AllLive ids fs = All (λ (f : Finding). mem_text f.id ids ≡ false) fs

-- a retained operation has exclusive custody of its findings, and carries no dismissed one
abbrev pub PubSound : List Finding → List String → Pub → Type 0
PubSound provisional ids (held p) =
    (is_retained p.phase ≡ false) ⊎ ((provisional ≡ []) × AllLive ids p.findings)
PubSound provisional ids _ = Unit

-- a judged status is that of the findings that are not dismissed
abbrev pub StatusSound : ReviewMemory → Type 0
StatusSound m = (is_judged m.status ≡ false) ⊎ (m.status ≡ status_of m.findings m.dismissed)

abbrev pub MemorySound : ReviewMemory → Type 0
MemorySound m = PubSound m.provisional m.dismissed m.publication × StatusSound m

abbrev pub Holds : List Finding → Pub → Type 0
Holds fs (held p) = p.findings ≡ fs
Holds fs _ = ⊥

-- a publication of `fs`: the descriptor holds them, none is dismissed, and nothing else is retained
abbrev pub RequestSound : List Finding → ReviewMemory → Type 0
RequestSound fs m =
    (m.provisional ≡ []) × AllLive m.dismissed fs × Holds fs m.publication × StatusSound m

abbrev pub PlaceSound : ReviewPlace → Type 0
PlaceSound (at_rest m) = MemorySound m
PlaceSound (in_round r) = MemorySound r.mem
PlaceSound (waiting d) = MemorySound d.mem
PlaceSound (publishing q) = RequestSound q.findings q.mem
PlaceSound (put_off d) = RequestSound d.findings d.mem
PlaceSound (ended e) = Unit

pub live-AllLive : (fs : List Finding) (ids : List String) → AllLive ids (live fs ids)
live-AllLive [] ids = tt
live-AllLive (f ∷ fs) ids = elim (Bool-cases (mem_text f.id ids)) [
  | inl p ↦ rw p (live-AllLive fs ids)
  | inr p ↦ rw p (p, live-AllLive fs ids)
]

pub mem_text-append :
    (p : String) (xs : List String) (q : String)
    → mem_text p (xs ++ q ∷ []) ≡ (mem_text p xs || p == q)
mem_text-append p [] q = ground arith
mem_text-append p (x ∷ xs) q = ground (arith, mem_text-append p xs q)

-- a dismissal of a finding that is not among them
pub dismiss-AllLive :
    (id : String) (ids : List String) (fs : List Finding)
    → AllLive ids fs
    → has_id id fs ≡ false
    → AllLive (ids ++ id ∷ []) fs
dismiss-AllLive id ids [] h p = tt
dismiss-AllLive id ids (f ∷ fs) h p =
    (ground (arith, h.0, mem_text-append f.id ids id), dismiss-AllLive id ids fs h.1 (ground arith))

pub start_refreshed-PlaceSound :
    (digest : String → ℕ → String) (w : HeadWork) (m : ReviewMemory) (p : ReviewPlace)
    → MemorySound m
    → PlaceSound (placed p (start_refreshed digest w m))
unfolding start_refreshed
start_refreshed-PlaceSound digest w m p h =
    elim (Bool-cases (is_nil (live m.provisional m.dismissed))) [
      | inl q ↦ rw q h
      | inr q ↦ rw q (refl, live-AllLive m.provisional m.dismissed, refl, h.1)
    ]

-- a retained operation that is reopened is a sound request
pub reopen-RequestSound :
    (b : PubRecord) (m : ReviewMemory)
    → is_retained b.phase ≡ true
    → PubSound m.provisional m.dismissed (held b)
    → StatusSound m
    → RequestSound b.findings (reopened b m).mem
reopen-RequestSound b m p (inl g) h = absurd (cc)
reopen-RequestSound b m p (inr g) h = (g.0, g.1, refl, h)

pub recover-PlaceSound :
    (r : RecoverFact) (m : ReviewMemory) (b : Pub) (p : ReviewPlace)
    → MemorySound m
    → PubSound m.provisional m.dismissed b
    → PlaceSound (placed p (recover_pub r m b))
unfolding recover_pub
recover-PlaceSound r m idle p h g = h
recover-PlaceSound r m (stray x) p h g = h
recover-PlaceSound r m (held b) p h g =
    elim (Bool-cases
      (not (r.target == "review") || not (is_retained b.phase) || not (r.op == b.op))) [
        | inl c ↦ rw c h
        | inr c ↦ rw c (reopen-RequestSound b m (ground (arith, c)) g h.1)
      ]

-- the descriptor of an operation that does not carry the finding dismissed
pub keep-PubSound :
    (id : String) (m : ReviewMemory) (b : PubRecord)
    → is_carried id (held b) ≡ false
    → PubSound m.provisional m.dismissed (held b)
    → PubSound m.provisional (dismissed_memory id m).dismissed (held b)
keep-PubSound id m b c (inl g) = inl g
keep-PubSound id m b c (inr g) = elim (Bool-cases (is_retained b.phase)) [
  | inr r ↦ inl r
  | inl r ↦ inr (
    g.0,
    elim (Bool-cases (mem_text id m.dismissed)) [
      | inl p ↦ rw p g.1
      | inr p ↦ rw p (dismiss-AllLive id m.dismissed b.findings g.1 (ground (arith, c, r)))
    ],
  )
]

pub cancelled-PubSound :
    (id : String) (m : ReviewMemory) (b : Pub)
    → PubSound m.provisional m.dismissed b
    → PubSound m.provisional (dismissed_memory id m).dismissed (cancelled_pub id b)
cancelled-PubSound id m idle h = tt
cancelled-PubSound id m (stray x) h = tt
cancelled-PubSound id m (held b) h = elim (Bool-cases (is_carried id (held b))) [
  | inl c ↦ rw c (inl refl)
  | inr c ↦ rw c (keep-PubSound id m b c h)
]

-- a dismissal of no finding that is shown leaves the status of those that are
pub live-dismiss :
    (id : String) (ids : List String) (fs : List Finding)
    → has_id id fs ≡ false
    → live fs (ids ++ id ∷ []) ≡ live fs ids
live-dismiss id ids [] p = refl
live-dismiss id ids (f ∷ fs) p = ground (arith, live-dismiss id ids fs, mem_text-append f.id ids id)

pub unshown-StatusSound :
    (id : String) (m : ReviewMemory)
    → has_id id m.findings ≡ false
    → StatusSound m
    → StatusSound (dismissed_memory id m)
unshown-StatusSound id m p (inl h) = inl h
unshown-StatusSound id m p (inr h) = elim (Bool-cases (mem_text id m.dismissed)) [
  | inl q ↦ rw q (inr h)
  | inr q ↦ inr (rw (q, live-dismiss id m.dismissed m.findings p) h)
]

pub recounted-MemorySound :
    (m : ReviewMemory)
    → PubSound m.provisional m.dismissed m.publication
    → MemorySound (recounted m)
recounted-MemorySound m h = elim (Bool-cases (is_judged m.status)) [
  | inl p ↦ rw p (h, inr refl)
  | inr p ↦ rw p (h, inl p)
]

pub dismiss-PlaceSound :
    (d : DismissFact) (m : ReviewMemory) (p : ReviewPlace)
    → MemorySound m
    → PlaceSound (placed p (dismiss d m))
unfolding dismiss
dismiss-PlaceSound d m p h =
    let g = cancelled-PubSound d.finding_id m m.publication h.0 in
    elim (Bool-cases (has_id d.finding_id m.findings)) [
      | inl q ↦ rw q (recounted-MemorySound (dismissed_memory d.finding_id m) g)
      | inr q ↦ rw q (g, unshown-StatusSound d.finding_id m q h.1)
    ]
