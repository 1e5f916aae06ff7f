-- ===== src/Ready/Once.antt =====
-- No incarnation is announced twice: the announced ledger of readiness.py is the sequence of the
-- announcements mailed to the dashboard, and it has no repetition.
use hamsterdan.Base.{
  append-nil, append_assoc, ℕ, zero, suc, none, some, List, [], ◌∷◌, ◌++◌, ◌≡◌, inl, inr, refl, sym,
  arith, Option-cases,
}
use mathlib.Core.Path.{subst}
use hamsterdan.Colors.{Snapshot, AnnounceReq, ADeferred, AWake, Mail, dash_facts, announced}
use hamsterdan.Ready.{
  announce_open, authorize, fold_applied, settle, wake_deferred, recover, recover_blocked, end,
  drain,
}
use hamsterdan.Ready.Protocol.{
  Seat, live, ended, ReadyState, newborn, Fact, state, Answer, landed, ReadyEvent, folded,
  authorized, answered, woken, recovered, closed, apply, fold_answer, fire, fire_live, fire_ended,
  fire_seat, run, put_mail,
}
use hamsterdan.Ready.Custody.{
  IsDistinct, IsCustodied, SeatCustody, newborn-IsCustodied, fire_keeps, state_of,
}

-- the incarnations announced to the dashboard
abbrev pub announcements : List Mail → List ℕ
announcements [] = []
announcements (dash_facts (announced n head) ∷ ms) = n ∷ announcements ms
announcements (_ ∷ ms) = announcements ms

abbrev pub ledger : Seat → List ℕ
ledger (live s) = s.announced
ledger (ended e) = e.announced

announcements-append :
    (ms ns : List Mail) → announcements (ms ++ ns) ≡ announcements ms ++ announcements ns
announcements-append [] ns = refl
announcements-append (m ∷ ms) ns = ground (arith, announcements-append ms ns)

module _ (v : ReadyState) where
  abbrev Logs : List ℕ → List Mail → Type 0
  Logs ns ms = ledger ((put_mail v ms).seat) ≡ ns ++ announcements ms

  open-Logs : (s : Snapshot) → Logs s.announced (announce_open s)
  unfolding announce_open
  open-Logs s = ground (arith, append-nil s.announced)

  apply_logs : (s t : Snapshot) (f : Fact) → apply s f ≡ some t → t.announced ≡ s.announced
  unfolding apply
  apply_logs s t (state f) p = ground arith
  apply_logs s t _ p = ground arith

  folded-Logs : (s : Snapshot) (f : Fact) → Logs s.announced (fold_applied s (apply s f))
  unfolding fold_applied
  folded-Logs s f = elim (Option-cases (apply s f)) [
    | inl p ↦ rw (p, fold_applied) (sym (append-nil s.announced))
    | inr (t, p) ↦
        rw (p, fold_applied)
          (subst (λ ns. Logs ns (announce_open t)) (apply_logs s t f p) (open-Logs t))
  ]

  answer-Logs :
      (r : AnnounceReq) (a : Answer) (s : Snapshot) (ms : List Mail)
      → fold_answer r a s ≡ some ms
      → Logs s.announced ms
  unfolding fold_answer settle announce_open
  answer-Logs r landed s ms p =
      ground (arith, append-nil (s.announced ++ r.incarnation ∷ []), append-nil s.announced)
  answer-Logs r _ s ms p = ground (arith, append-nil s.announced)

  woken-Logs :
      (d : ADeferred) (k : AWake) (s : Snapshot) (ms : List Mail)
      → wake_deferred d k s ≡ some ms
      → Logs s.announced ms
  unfolding wake_deferred settle announce_open
  woken-Logs d k s ms p = ground (arith, append-nil s.announced)

pub some_fired_inj : {a b : ReadyState × List Mail} → some a ≡ some b → a ≡ b
some_fired_inj h = cc

pub none-ne-fired : {a : ReadyState × List Mail} → none ≡ some a → ⊥
none-ne-fired h = cc

live_logs :
    (seat : Seat) (out : List AnnounceReq) (waiting : List ADeferred) (n : ℕ) (v : ReadyState)
    (s : Snapshot) (e : ReadyEvent) (ms : List Mail)
    → seat ≡ live s
    → fire_live (state_of seat out waiting n) s e ≡ some (v, ms)
    → ledger ((put_mail v ms).seat) ≡ s.announced ++ announcements ms
unfolding fire_live
live_logs seat out waiting n v s (folded f) ms q p =
    ground (arith, folded-Logs v s f, append-nil s.announced)
live_logs seat out waiting n v s (recovered r) ms q p =
    unfold recover recover_blocked in ground (arith, append-nil s.announced)
live_logs seat out waiting n v s (closed c) ms q p =
    unfold end in ground (arith, append-nil s.announced)
live_logs seat out waiting zero v s authorized ms q p = ground (arith, append-nil s.announced)
live_logs seat out waiting (suc n) v s authorized ms q p =
    unfold authorize in ground (arith, append-nil s.announced)
live_logs seat [] waiting n v s (answered a) ms q p = ground (arith, append-nil s.announced)
live_logs seat (r ∷ out) waiting n v s (answered a) ms q p =
    elim (Option-cases (fold_answer r a s)) [
      | inl k ↦ ground arith
      | inr (x, k) ↦ ground (arith, answer-Logs v r a s x k)
    ]
live_logs seat out [] n v s (woken k) ms q p = ground (arith, append-nil s.announced)
live_logs seat out (d ∷ waiting) n v s (woken k) ms q p =
    elim (Option-cases (wake_deferred d k s)) [
      | inl j ↦ ground arith
      | inr (x, j) ↦ ground (arith, woken-Logs v d k s x j)
    ]

fire_logs :
    (seat : Seat) (out : List AnnounceReq) (waiting : List ADeferred) (n : ℕ) (v : ReadyState)
    (e : ReadyEvent) (ms : List Mail)
    → fire (state_of seat out waiting n) e ≡ some (v, ms)
    → ledger ((put_mail v ms).seat) ≡ ledger seat ++ announcements ms
unfolding fire fire_seat fire_ended drain
fire_logs (live s) out waiting n v e ms p = live_logs (live s) out waiting n v s e ms refl p
fire_logs (ended x) out waiting zero v authorized ms p = ground (arith, append-nil x.announced)
fire_logs (ended x) out waiting (suc n) v authorized ms p = ground (arith, append-nil x.announced)
fire_logs (ended x) out waiting n v (folded f) ms p = ground (arith, append-nil x.announced)
fire_logs (ended x) out waiting n v (woken f) ms p = ground (arith, append-nil x.announced)
fire_logs (ended x) out waiting n v (recovered f) ms p = ground (arith, append-nil x.announced)
fire_logs (ended x) out waiting n v (answered f) ms p = ground (arith, append-nil x.announced)
fire_logs (ended x) out waiting n v (closed f) ms p = ground (arith, append-nil x.announced)

abbrev pub Logged : ReadyState → ReadyState × List Mail → Type 0
Logged w r = IsCustodied r.0 × (ledger r.0.seat ≡ ledger w.seat ++ announcements r.1)

logged :
    (before between : List ℕ) (ns : List Mail) (t : ReadyState × List Mail)
    → between ≡ before ++ announcements ns
    → ledger t.0.seat ≡ between ++ announcements t.1
    → ledger t.0.seat ≡ before ++ announcements (ns ++ t.1)
logged before between ns t f g =
    rw
      (
        g,
        f,
        announcements-append ns t.1,
        append_assoc before (announcements ns) (announcements t.1),
      )
      refl

-- what a run keeps and what it logs
pub run_logs :
    (w : ReadyState) (es : List ReadyEvent) (r : ReadyState × List Mail)
    → run w es ≡ some r
    → IsCustodied w
    → Logged w r
unfolding run
run_logs w [] r p h = subst (Logged w) (some_fired_inj p) (h, sym (append-nil (ledger w.seat)))
run_logs w (e ∷ es) r p h = elim (Option-cases (fire w e)) [
  | inl q ↦ absurd (none-ne-fired (rw (q, run) at p))
  | inr ((u, ns), q) ↦ elim (Option-cases (run (put_mail u ns) es)) [
    | inl q' ↦ absurd (none-ne-fired (rw q' at (rw (q, run) at p)))
    | inr (t, q') ↦
        let rest =
          run_logs (put_mail u ns) es t q'
            (fire_keeps w.seat w.out w.deferred w.candidates u e ns q h) in
        subst (Logged w) (some_fired_inj (rw q' at (rw (q, run) at p))) (
          rest.0,
          logged (ledger w.seat) (ledger ((put_mail u ns).seat)) ns t
              (fire_logs w.seat w.out w.deferred w.candidates u e ns q) rest.1,
        )
  ]
]

seat-IsDistinct :
    (seat : Seat) (out : List AnnounceReq) (waiting : List ADeferred) (n : ℕ)
    → SeatCustody seat out waiting n
    → IsDistinct (ledger seat)
seat-IsDistinct (live s) out waiting n h = ground arith
seat-IsDistinct (ended e) out waiting n h = ground arith

-- In every run of the readiness loop from its newborn state, whatever the facts, candidates, gate
-- answers, wakes, recoveries and closes, the announced ledger is the sequence of the `announced`
-- facts mailed to the dashboard, and no incarnation is announced twice.
pub announced_once :
    (es : List ReadyEvent) (w : ReadyState) (ms : List Mail)
    → run newborn es ≡ some (w, ms)
    → (ledger w.seat ≡ announcements ms) × IsDistinct (announcements ms)
announced_once es w ms p =
    let (kept, logged) = run_logs newborn es (w, ms) p newborn-IsCustodied in
    (logged, subst IsDistinct logged (seat-IsDistinct w.seat w.out w.deferred w.candidates kept))
