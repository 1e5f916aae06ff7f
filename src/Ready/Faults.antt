-- ===== src/Ready/Faults.antt =====
-- A fault of the announce gate stops the announcing of readiness.py for good: no fact clears it.
use hamsterdan.Base.{
  ℕ, String, true, false, none, some, List, [], ◌∷◌, ◌++◌, ◌≡◌, ◌≢◌, inl, inr, refl, sym, ap, ◌∙◌,
  arith, is_some, Option-cases, eq_iff, ◌⧺◌, get, put, get-put, get-without, before_colon,
  before_colon-append, has_colon,
}
use mathlib.Core.Path.{subst}
use text.Mathlib.TextLemmas.{append_assoc}
use hamsterdan.Colors.{
  ready_announce_req, review, mutation, rerun, Snapshot, AnnounceReq, ADeferred, Owner, owner_text,
  Mail,
}
use hamsterdan.Ready.{
  ready, fault_key, announce_open, announce_viable, authorize, fold_applied, fold_afault, settle,
  recover, recover_blocked, end, drain,
}
use hamsterdan.Ready.Protocol.{
  Seat, live, ended, ReadyState, newborn, Fact, state, fault_raised, fault_cleared, faulted,
  fault_of, ReadyEvent, folded, authorized, answered, woken, recovered, closed, apply, fold_answer,
  fire, fire_live, fire_ended, fire_seat, run, put_mail,
}
use hamsterdan.Ready.Custody.{SeatCustody, newborn-IsCustodied, state_of}
use hamsterdan.Ready.Once.{run_logs, some_fired_inj, none-ne-fired}
use hamsterdan.Ready.Authority.{requests}

-- the key under which a fault of the announce gate is kept
abbrev announce_key : String → String
announce_key op = "announce:" ⧺ op

owner-has_colon : (owner : Owner) → has_colon (owner_text owner) ≡ false
owner-has_colon review = refl
owner-has_colon mutation = refl
owner-has_colon rerun = refl

announce-before_colon : (op : String) → before_colon (announce_key op) ≡ "announce"
announce-before_colon op =
    ap before_colon (append_assoc "announce" ":" op) ∙ before_colon-append "announce" op refl

owner-ne-announce : (owner : Owner) → owner_text owner ≢ "announce"
owner-ne-announce review p = ground (arith, eq_iff "review" "announce")
owner-ne-announce mutation p = ground (arith, eq_iff "mutation" "announce")
owner-ne-announce rerun p = ground (arith, eq_iff "rerun" "announce")

-- no loop's fault key is the gate's
fault_key-ne-announce : (owner : Owner) (j op : String) → fault_key owner j ≢ announce_key op
fault_key-ne-announce owner j op p = owner-ne-announce owner (
    sym (before_colon-append (owner_text owner) j (owner-has_colon owner))
    ∙ ap before_colon p
    ∙ announce-before_colon op)

abbrev IsFaulted : String → Snapshot → Type 0
IsFaulted op s =
    (is_some (get (announce_key op) s.faults) ≡ true) × (s.announcing ≡ none) × (s.blocked ≡ none)

abbrev IsStopped : String → Seat → List AnnounceReq → List ADeferred → Type 0
IsStopped op (live s) out waiting = IsFaulted op s × (out ≡ []) × (waiting ≡ [])
IsStopped op (ended x) out waiting = (out ≡ []) × (waiting ≡ [])

-- after the tokens `ms`, the loop is stopped, and they ask for nothing
abbrev Stops : String → ReadyState → List Mail → Type 0
Stops op w ms = let v = put_mail w ms in IsStopped op v.seat v.out v.deferred × (requests ms ≡ [])

faulted_unready : (op : String) (s : Snapshot) → IsFaulted op s → ready s ≡ false
unfolding ready get
faulted_unready op s h = ground arith

requests-nil : (ms ns : List Mail) → requests ms ≡ [] → requests ns ≡ [] → requests (ms ++ ns) ≡ []
requests-nil [] ns p q = q
requests-nil (ready_announce_req r ∷ ms) ns p q = cc
requests-nil (_ ∷ ms) ns p q = requests-nil ms ns p q

module _ (op : String) where
  open-Stops :
      (w : ReadyState) (s : Snapshot)
      → IsFaulted op s
      → w.out ≡ []
      → w.deferred ≡ []
      → Stops op w (announce_open s)
  unfolding announce_open announce_viable
  open-Stops w s h p q = ground (arith, faulted_unready op s h)

  apply-IsFaulted :
      (s t : Snapshot) (f : Fact) → apply s f ≡ some t → IsFaulted op s → IsFaulted op t
  unfolding apply
  apply-IsFaulted s t (state f) p h = ground arith
  apply-IsFaulted s t (fault_raised f) p h =
      ground (arith, get-put (fault_key f.owner f.op) (announce_key op) f.reason s.faults)
  apply-IsFaulted s t (fault_cleared f) p h = ground (
    arith,
    get-without (fault_key f.owner f.op) (announce_key op) s.faults,
    eq_iff (fault_key f.owner f.op) (announce_key op),
    fault_key-ne-announce f.owner f.op op,
  )
  apply-IsFaulted s t _ p h = ground arith

  folded-Stops :
      (w : ReadyState) (s : Snapshot) (f : Fact)
      → IsFaulted op s
      → w.seat ≡ live s
      → w.out ≡ []
      → w.deferred ≡ []
      → Stops op w (fold_applied s (apply s f))
  unfolding fold_applied
  folded-Stops w s f h l p q = elim (Option-cases (apply s f)) [
    | inl e ↦ rw (e, fold_applied) ((h, p, q), refl)
    | inr (t, e) ↦ rw (e, fold_applied) (open-Stops w t (apply-IsFaulted s t f e h) p q)
  ]

  authorize-Stops :
      (w : ReadyState) (s : Snapshot)
      → IsFaulted op s
      → w.out ≡ []
      → w.deferred ≡ []
      → Stops op w (authorize s)
  unfolding authorize announce_viable
  authorize-Stops w s h p q = ground (arith, faulted_unready op (record s { candidate = false }) h)

  live-Stops :
      (w v : ReadyState) (s : Snapshot) (e : ReadyEvent) (ms : List Mail)
      → w.seat ≡ live s
      → fire_live w s e ≡ some (v, ms)
      → IsFaulted op s
      → w.out ≡ []
      → w.deferred ≡ []
      → Stops op v ms
  unfolding fire_live
  live-Stops w v s (folded f) ms l r h p q = ground (arith, folded-Stops w s f h l p q)
  live-Stops w v s (recovered f) ms l r h p q = unfold recover recover_blocked in ground arith
  live-Stops w v s (closed c) ms l r h p q = unfold end in ground arith
  live-Stops w v s authorized ms l r h p q = ground (arith, authorize-Stops v s h)
  live-Stops w v s (answered a) ms l r h p q = ground arith
  live-Stops w v s (woken k) ms l r h p q = ground arith

  fire-Stops :
      (seat : Seat) (out : List AnnounceReq) (waiting : List ADeferred) (n : ℕ) (v : ReadyState)
      (e : ReadyEvent) (ms : List Mail)
      → fire (state_of seat out waiting n) e ≡ some (v, ms)
      → IsStopped op seat out waiting
      → Stops op v ms
  unfolding fire fire_seat fire_ended drain
  fire-Stops (live s) out waiting n v e ms p h =
      live-Stops (state_of (live s) out waiting n) v s e ms refl p h.0 h.1 h.2
  fire-Stops (ended x) out waiting n v e ms p h = ground arith

  abbrev Quiet : ReadyState × List Mail → Type 0
  Quiet r = requests r.1 ≡ []

  run_stops :
      (w : ReadyState) (es : List ReadyEvent) (r : ReadyState × List Mail)
      → run w es ≡ some r
      → IsStopped op w.seat w.out w.deferred
      → Quiet r
  unfolding run
  run_stops w [] r p h = subst Quiet (some_fired_inj p) refl
  run_stops w (e ∷ es) r p h = elim (Option-cases (fire w e)) [
    | inl q ↦ absurd (none-ne-fired (rw (q, run) at p))
    | inr ((u, ns), q) ↦ elim (Option-cases (run (put_mail u ns) es)) [
      | inl q' ↦ absurd (none-ne-fired (rw q' at (rw (q, run) at p)))
      | inr (t, q') ↦
          let (stopped, quiet) = fire-Stops w.seat w.out w.deferred w.candidates u e ns q h in
          subst Quiet (some_fired_inj (rw q' at (rw (q, run) at p)))
            (requests-nil ns t.1 quiet (run_stops (put_mail u ns) es t q' stopped))
    ]
  ]

settled-Stops :
    (r : AnnounceReq) (w : ReadyState) (s : Snapshot) (reason : String)
    → w.out ≡ []
    → w.deferred ≡ []
    → s.blocked ≡ none
    → Stops r.op w (fold_afault (fault_of r reason) s)
unfolding fold_afault settle
settled-Stops r w s reason p q h = ground (
  arith,
  get-put (announce_key r.op) (announce_key r.op) reason s.faults,
  eq_iff (announce_key r.op) (announce_key r.op),
  open-Stops r.op w
      (record s { announcing = none; faults = put (announce_key r.op) reason s.faults }),
)

fault-Stops :
    (seat : Seat) (r : AnnounceReq) (rest : List AnnounceReq) (waiting : List ADeferred) (n : ℕ)
    (reason : String) (v : ReadyState) (ms : List Mail)
    → fire (state_of seat (r ∷ rest) waiting n) (answered (faulted reason)) ≡ some (v, ms)
    → SeatCustody seat (r ∷ rest) waiting n
    → Stops r.op v ms
unfolding fire fire_seat fire_live fire_ended fold_answer
fault-Stops (live s) r rest waiting n reason v ms p h = ground (arith, settled-Stops r v s reason)
fault-Stops (ended x) r rest waiting n reason v ms p h = ground arith

-- Once the announce gate has answered a request with a fault, in any state that a run reaches from the
-- newborn one, the readiness loop never asks the gate for anything again, whatever comes after: no
-- fact, cleared fault of another loop or recovery reopens announcing.
pub fault_is_final :
    (es fs : List ReadyEvent) (w v u : ReadyState) (ms ns ks : List Mail) (r : AnnounceReq)
    (rest : List AnnounceReq) (reason : String)
    → run newborn es ≡ some (w, ms)
    → w.out ≡ r ∷ rest
    → fire w (answered (faulted reason)) ≡ some (v, ns)
    → run (put_mail v ns) fs ≡ some (u, ks)
    → requests (ns ++ ks) ≡ []
fault_is_final es fs w v u ms ns ks r rest reason p q f g =
    let custody = (run_logs newborn es (w, ms) p newborn-IsCustodied).0 in
    let (stopped, quiet) =
      fault-Stops w.seat r rest w.deferred w.candidates reason v ns
        (subst
          (λ out.
            fire (state_of w.seat out w.deferred w.candidates) (answered (faulted reason))
            ≡ some (v, ns))
          q f)
        (subst (λ out. SeatCustody w.seat out w.deferred w.candidates) q custody) in
    requests-nil ns ks quiet (run_stops r.op (put_mail v ns) fs (u, ks) g stopped)
