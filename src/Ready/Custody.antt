-- ===== src/Ready/Custody.antt =====
-- The announcement is in one place at a time: nowhere, with the gate, deferred, or blocked. What the
-- snapshot retains of it is that very request.
use hamsterdan.Base.{
  one_if, ℕ, zero, suc, true, false, ◌&&◌, ◌||◌, Option, none, some, List, [], ◌∷◌, ◌++◌, ◌≡◌, inl,
  inr, refl, arith, is_some, Option-cases, eq_iff, eqb,
}
use hamsterdan.Colors.{
  Snapshot, AnnounceReq, ADeferred, AWake, AMoved, ABlocked, AFault, RecoverFact, CloseFact, Mail,
}
use hamsterdan.Ready.{
  mem_ℕ, deferred_request, req_eq, announce_open, announce_viable, authorize, fold_applied,
  fold_alanded, fold_amoved, fold_ablocked, fold_afault, fold_adeferred, settle, wake_deferred,
  recover, recover_blocked, end,
}
use hamsterdan.Ready.Protocol.{
  Seat, live, ended, ReadyState, newborn, Fact, state, Answer, landed, deferred, blocked, moved,
  faulted, ReadyEvent, folded, authorized, answered, woken, recovered, closed, apply, deferred_of,
  blocked_of, fault_of, fold_answer, fire, fire_live, fire_ended, fire_seat, put_mail,
}
use mathlib.Core.Path.{subst}

some_mail_inj : {ms ns : List Mail} → some ms ≡ some ns → ms ≡ ns
some_mail_inj h = cc

-- where the request in custody is
abbrev pub Holds : Option AnnounceReq → List AnnounceReq → List ADeferred → Type 0
Holds none [] [] = Unit
Holds none [] (d ∷ ds) = ⊥
Holds none (r ∷ rs) ds = ⊥
Holds (some a) [] [] = ⊥
Holds (some a) [] (d ∷ []) = deferred_request d ≡ a
Holds (some a) [] (d ∷ e ∷ ds) = ⊥
Holds (some a) (r ∷ []) [] = r ≡ a
Holds (some a) (r ∷ []) (d ∷ ds) = ⊥
Holds (some a) (r ∷ q ∷ rs) ds = ⊥

-- no incarnation twice
abbrev pub IsDistinct : List ℕ → Type 0
IsDistinct [] = Unit
IsDistinct (n ∷ ns) = (mem_ℕ n ns ≡ false) × IsDistinct ns

-- the request's incarnation has not been announced
abbrev pub IsUnannounced : Option AnnounceReq → List ℕ → Type 0
IsUnannounced none ns = Unit
IsUnannounced (some a) ns = mem_ℕ a.incarnation ns ≡ false

abbrev pub Custody : Snapshot → List AnnounceReq → List ADeferred → ℕ → Type 0
Custody s out waiting candidates =
    Holds s.announcing out waiting
    × ((is_some s.announcing && is_some s.blocked) ≡ false)
    × (candidates ≡ one_if s.candidate)
    × IsDistinct s.announced
    × IsUnannounced s.announcing s.announced
    × IsUnannounced s.blocked s.announced

abbrev pub SeatCustody : Seat → List AnnounceReq → List ADeferred → ℕ → Type 0
SeatCustody (live s) out waiting candidates = Custody s out waiting candidates
SeatCustody (ended e) out waiting candidates = (out ≡ []) × (waiting ≡ []) × IsDistinct e.announced

-- One announcement in custody at most, in one place; a candidate token for the candidate flag; and
-- an announced ledger with no incarnation twice, nor that of the announcement in custody.
abbrev pub IsCustodied : ReadyState → Type 0
IsCustodied w = SeatCustody w.seat w.out w.deferred w.candidates

pub newborn-IsCustodied : IsCustodied newborn
newborn-IsCustodied = (tt, refl, refl, tt, tt, tt)

pub req_eq_refl : (r : AnnounceReq) → req_eq r r ≡ true
req_eq_refl r =
    ground (
      arith,
      eq_iff r.op r.op,
      eq_iff r.head r.head,
      eq_iff r.base r.base,
      eq_iff r.policy r.policy,
    )

mem_ℕ-snoc : (m n : ℕ) (ns : List ℕ) → mem_ℕ m (ns ++ n ∷ []) ≡ (mem_ℕ m ns || eqb m n)
mem_ℕ-snoc m n [] = ground arith
mem_ℕ-snoc m n (k ∷ ns) = ground (arith, mem_ℕ-snoc m n ns)

IsDistinct-snoc :
    (n : ℕ) (ns : List ℕ) → mem_ℕ n ns ≡ false → IsDistinct ns → IsDistinct (ns ++ n ∷ [])
IsDistinct-snoc n [] h d = (refl, tt)
IsDistinct-snoc n (m ∷ ns) h d =
    (ground (arith, mem_ℕ-snoc m n ns), IsDistinct-snoc n ns (ground arith) d.1)

-- a state with its lists in view
abbrev pub state_of : Seat → List AnnounceReq → List ADeferred → ℕ → ReadyState
state_of seat out waiting n = record { seat = seat; out = out; deferred = waiting; candidates = n }

module _ (out : List AnnounceReq) (waiting : List ADeferred) (n : ℕ) (seat : Seat) where
  open_keeps :
      (s : Snapshot)
      → Custody s out waiting n
      → IsCustodied (put_mail (state_of seat out waiting n) (announce_open s))
  unfolding announce_open
  open_keeps s h = ground arith

  apply_keeps :
      (s t : Snapshot) (f : Fact)
      → apply s f ≡ some t
      → Custody s out waiting n
      → Custody t out waiting n
  unfolding apply
  apply_keeps s t (state f) p h = ground arith
  apply_keeps s t _ p h = ground arith

  folded_keeps :
      (s : Snapshot) (f : Fact)
      → Custody s out waiting n
      → IsCustodied (put_mail (state_of seat out waiting n) (fold_applied s (apply s f)))
  unfolding fold_applied
  folded_keeps s f h = elim (Option-cases (apply s f)) [
    | inl p ↦ rw (p, fold_applied) h
    | inr (t, p) ↦ rw (p, fold_applied) (open_keeps t (apply_keeps s t f p h))
  ]

  authorize_keeps :
      (s : Snapshot)
      → Custody s out waiting (suc n)
      → IsCustodied (put_mail (state_of seat out waiting n) (authorize s))
  unfolding authorize announce_viable
  authorize_keeps s h = ground arith

  recover-Keeps :
      (r : RecoverFact) (s : Snapshot)
      → Custody s out waiting n
      → IsCustodied (put_mail (state_of seat out waiting n) (recover r s))
  unfolding recover recover_blocked
  recover-Keeps r s h = ground arith

  end-Keeps :
      (c : CloseFact) (s : Snapshot)
      → Custody s out waiting n
      → IsCustodied (put_mail (state_of seat out waiting n) (end c s))
  unfolding end
  end-Keeps c s h = ground arith

  landed_keeps :
      (r : AnnounceReq) (s : Snapshot)
      → Custody s (r ∷ out) waiting n
      → IsCustodied (
          put_mail
            (state_of seat out waiting n)
            (fold_alanded (record { incarnation = r.incarnation; head = r.head }) s))
  unfolding fold_alanded settle announce_open
  landed_keeps r s h = ground (arith, IsDistinct-snoc r.incarnation s.announced)

  moved_keeps :
      (r : AnnounceReq) (m : AMoved) (s : Snapshot)
      → Custody s (r ∷ out) waiting n
      → IsCustodied (put_mail (state_of seat out waiting n) (fold_amoved m s))
  unfolding fold_amoved announce_open
  moved_keeps r m s h = ground arith

  blocked_keeps :
      (b : ABlocked) (r : AnnounceReq) (s : Snapshot)
      → Custody s (r ∷ out) waiting n
      → IsCustodied (put_mail (state_of seat out waiting n) (fold_ablocked b s))
  unfolding fold_ablocked
  blocked_keeps b r s h = ground arith

  faulted_keeps :
      (f : AFault) (r : AnnounceReq) (s : Snapshot)
      → Custody s (r ∷ out) waiting n
      → IsCustodied (put_mail (state_of seat out waiting n) (fold_afault f s))
  unfolding fold_afault settle announce_open
  faulted_keeps f r s h = ground arith

  deferred_keeps :
      (d : ADeferred) (ms : List Mail) (r : AnnounceReq) (s : Snapshot)
      → fold_adeferred d s ≡ some ms
      → deferred_request d ≡ r
      → Custody s (r ∷ out) waiting n
      → IsCustodied (put_mail (state_of seat out waiting n) ms)
  unfolding fold_adeferred
  deferred_keeps d ms r s p q h = ground arith

  woken_keeps :
      (d : ADeferred) (k : AWake) (ms : List Mail) (s : Snapshot)
      → wake_deferred d k s ≡ some ms
      → Custody s out (d ∷ waiting) n
      → IsCustodied (put_mail (state_of seat out waiting n) ms)
  unfolding wake_deferred settle announce_open announce_viable
  woken_keeps d k ms s p h = ground arith

  abbrev Kept : List Mail → Type 0
  Kept ms = IsCustodied (put_mail (state_of seat out waiting n) ms)

  answer-Keeps :
      (a : Answer) (ms : List Mail) (r : AnnounceReq) (s : Snapshot)
      → fold_answer r a s ≡ some ms
      → Custody s (r ∷ out) waiting n
      → IsCustodied (put_mail (state_of seat out waiting n) ms)
  unfolding fold_answer
  answer-Keeps landed ms r s p h = subst Kept (some_mail_inj p) (landed_keeps r s h)
  answer-Keeps (deferred b) ms r s p h = deferred_keeps (deferred_of r b) ms r s p refl h
  answer-Keeps blocked ms r s p h =
      subst Kept (some_mail_inj p) (blocked_keeps (blocked_of r) r s h)
  answer-Keeps (moved m) ms r s p h = subst Kept (some_mail_inj p) (moved_keeps r m s h)
  answer-Keeps (faulted x) ms r s p h =
      subst Kept (some_mail_inj p) (faulted_keeps (fault_of r x) r s h)

live_keeps :
    (seat : Seat) (out : List AnnounceReq) (waiting : List ADeferred) (n : ℕ) (v : ReadyState)
    (s : Snapshot) (e : ReadyEvent) (ms : List Mail)
    → seat ≡ live s
    → fire_live (state_of seat out waiting n) s e ≡ some (v, ms)
    → Custody s out waiting n
    → IsCustodied (put_mail v ms)
unfolding fire_live
live_keeps seat out waiting n v s (folded f) ms q p h =
    ground (arith, folded_keeps out waiting n seat s f h)
live_keeps seat out waiting n v s (recovered r) ms q p h =
    ground (arith, recover-Keeps out waiting n seat r s h)
live_keeps seat out waiting n v s (closed c) ms q p h =
    ground (arith, end-Keeps out waiting n seat c s h)
live_keeps seat out waiting zero v s authorized ms q p h = ground arith
live_keeps seat out waiting (suc n) v s authorized ms q p h =
    ground (arith, authorize_keeps out waiting n seat s h)
live_keeps seat [] waiting n v s (answered a) ms q p h = ground arith
live_keeps seat (r ∷ out) waiting n v s (answered a) ms q p h =
    elim (Option-cases (fold_answer r a s)) [
      | inl k ↦ ground arith
      | inr (x, k) ↦ ground (arith, answer-Keeps out waiting n seat a x r s k h)
    ]
live_keeps seat out [] n v s (woken k) ms q p h = ground arith
live_keeps seat out (d ∷ waiting) n v s (woken k) ms q p h =
    elim (Option-cases (wake_deferred d k s)) [
      | inl j ↦ ground arith
      | inr (x, j) ↦ ground (arith, woken_keeps out waiting n seat d k x s j h)
    ]

pub fire_keeps :
    (seat : Seat) (out : List AnnounceReq) (waiting : List ADeferred) (n : ℕ) (v : ReadyState)
    (e : ReadyEvent) (ms : List Mail)
    → fire (state_of seat out waiting n) e ≡ some (v, ms)
    → SeatCustody seat out waiting n
    → IsCustodied (put_mail v ms)
unfolding fire fire_seat fire_ended
fire_keeps (live s) out waiting n v e ms p h = live_keeps (live s) out waiting n v s e ms refl p h
fire_keeps (ended x) out waiting zero v authorized ms p h = ground arith
fire_keeps (ended x) out waiting (suc n) v authorized ms p h = ground arith
fire_keeps (ended x) out waiting n v (folded f) ms p h = ground arith
fire_keeps (ended x) out waiting n v (woken f) ms p h = ground arith
fire_keeps (ended x) out waiting n v (recovered f) ms p h = ground arith
fire_keeps (ended x) out waiting n v (answered f) ms p h = ground arith
fire_keeps (ended x) out waiting n v (closed f) ms p h = ground arith
