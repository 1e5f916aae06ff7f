-- ===== src/Review/Spares.antt =====
-- The clearances of faults that the review loop mails, and the operations that it has forgotten.
use hamsterdan.Base.{
  ℕ, String, false, Option, none, some, List, [], ◌∷◌, ◌++◌, ◌≡◌, ◌==◌, refl, Bool-cases, inl, inr,
  All, All-append,
}
use hamsterdan.Colors.{Pub, idle, held, stray, ReviewMemory, Owner, Mail, ready_fault_cleared_facts}
use hamsterdan.Review.Identity.{findings_operation}
use hamsterdan.Review.Custody.{
  Settled, findings, reviewed as reviewed_fact, cleared, is_judged, is_faulted_origin,
  settlement_facts, resolution, fact_routes,
}
use hamsterdan.Review.Protocol.{
  ReviewPlace, at_rest, in_round, waiting, publishing, put_off, ended, ReviewEvent, headed, Fired,
}

module _ (digest : String → ℕ → String) (o : String) where
  -- the publication of this head is another operation
  abbrev pub Avoids : String → ℕ → Type 0
  Avoids head incarnation = (findings_operation digest head incarnation == o) ≡ false

  -- a head whose publication is another operation
  abbrev pub EventAvoids : ReviewEvent → Type 0
  EventAvoids (headed w) = Avoids w.head w.incarnation
  EventAvoids _ = Unit

  abbrev pub PubForgets : Pub → Type 0
  PubForgets (held p) = (p.op == o) ≡ false
  PubForgets _ = Unit

  -- neither the memory nor a request is about the operation
  abbrev pub PlaceForgets : ReviewPlace → Type 0
  PlaceForgets (at_rest m) = PubForgets m.publication
  PlaceForgets (in_round r) = PubForgets r.mem.publication × Avoids r.head r.incarnation
  PlaceForgets (waiting d) = PubForgets d.mem.publication × Avoids d.head d.incarnation
  PlaceForgets (publishing q) = ((q.op == o) ≡ false) × PubForgets q.mem.publication
  PlaceForgets (put_off d) = ((d.operation == o) ≡ false) × PubForgets d.mem.publication
  PlaceForgets (ended e) = Unit

  -- a clearance is of a fault of the review loop, and of another operation
  abbrev pub Spares : Mail → Type 0
  Spares (ready_fault_cleared_facts f) = (f.owner ≡ Owner.review) × ((f.op == o) ≡ false)
  Spares _ = Unit

  abbrev pub FactSpares : Settled → Type 0
  FactSpares (cleared f) = (f.owner ≡ Owner.review) × ((f.op == o) ≡ false)
  FactSpares _ = Unit

  pub routes-Spares : (ss : List Settled) → All FactSpares ss → All Spares (fact_routes ss)
  routes-Spares [] h = tt
  routes-Spares (findings f ∷ ss) h = (tt, (tt, routes-Spares ss h.1))
  routes-Spares (reviewed_fact f ∷ ss) h = (tt, (tt, routes-Spares ss h.1))
  routes-Spares (cleared f ∷ ss) h = (tt, (h.0, routes-Spares ss h.1))

  pub settlement-Spares :
      (m : ReviewMemory) (head : String) (incarnation : ℕ)
      → All FactSpares (settlement_facts m head incarnation)
  settlement-Spares m head incarnation = elim (Bool-cases (is_judged m.status)) [
    | inl p ↦ rw p (tt, (tt, tt))
    | inr p ↦ rw p (tt, tt)
  ]

  pub resolution-Spares : (b : Pub) → PubForgets b → All FactSpares (resolution b)
  resolution-Spares idle h = tt
  resolution-Spares (stray x) h = tt
  resolution-Spares (held p) h = elim (Bool-cases (is_faulted_origin p.was)) [
    | inl c ↦ rw c ((refl, h), tt)
    | inr c ↦ rw c tt
  ]

  pub settled-Spares :
      (m : ReviewMemory) (head : String) (incarnation : ℕ) (b : Pub)
      → PubForgets b
      → All Spares (fact_routes (settlement_facts m head incarnation ++ resolution b))
  settled-Spares m head incarnation b h =
      routes-Spares (settlement_facts m head incarnation ++ resolution b) (
        All-append FactSpares (settlement_facts m head incarnation) (resolution b)
          (settlement-Spares m head incarnation) (resolution-Spares b h))

  -- a transition that keeps the operation forgotten and clears no fault of it
  abbrev pub FiredSpares : Option Fired → Type 0
  FiredSpares none = Unit
  FiredSpares (some f) = PlaceForgets f.0 × All Spares f.1
