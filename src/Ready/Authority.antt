-- ===== src/Ready/Authority.antt =====
-- What the readiness loop asks the announce gate (readiness.py) is authorized: minted from a ready
-- snapshot, resumed in a ready snapshot, or recovered from its block.
use hamsterdan.Base.{
  true, false, Option, none, some, List, [], ◌∷◌, ◌≡◌, ◌⊎◌, inl, inr, refl, arith, Option-cases,
  eq_iff, All,
}
use hamsterdan.Colors.{
  Snapshot, AnnounceReq, ADeferred, AWake, RecoverFact, Mail, ready_announce_req,
}
use hamsterdan.Ready.{
  mem_ℕ, ready, request_of, is_announcing, announce_open, announce_viable, authorize, fold_applied,
  settle, wake_deferred, recover, recover_blocked, end, drain,
}
use hamsterdan.Ready.Protocol.{
  Seat, live, ended, ReadyState, Fact, Answer, ReadyEvent, folded, authorized, answered, woken,
  recovered, closed, apply, fold_answer, fire, fire_live, fire_ended, fire_seat,
}

-- the requests mailed to the announce gate
abbrev pub requests : List Mail → List AnnounceReq
requests [] = []
requests (ready_announce_req r ∷ ms) = r ∷ requests ms
requests (_ ∷ ms) = requests ms

-- every gate is clear, the pull request is not closing, and nothing of this incarnation is announced
abbrev pub IsClear : Snapshot → Type 0
IsClear s =
    (ready s ≡ true)
    × (mem_ℕ s.incarnation s.announced ≡ false)
    × (s.blocked ≡ none)
    × (s.closing ≡ none)

-- the grounds on which a live snapshot asks for `r`
abbrev pub IsAuthorized : Snapshot → ReadyEvent → AnnounceReq → Type 0
IsAuthorized s authorized r = IsClear s × (s.announcing ≡ none) × (r ≡ request_of s)
IsAuthorized s (woken k) r = IsClear s × (is_announcing s r ≡ true)
IsAuthorized s (recovered f) r =
    (s.blocked ≡ some r) × (s.closing ≡ none) × (f.target ≡ "readiness") × (f.op ≡ r.op)
IsAuthorized s (folded f) r = ⊥
IsAuthorized s (answered a) r = ⊥
IsAuthorized s (closed c) r = ⊥

abbrev pub Grounds : Seat → ReadyEvent → AnnounceReq → Type 0
Grounds (live s) e r = IsAuthorized s e r
Grounds (ended x) e r = ⊥

abbrev Grounded : Seat → ReadyEvent → List Mail → Type 0
Grounded seat e ms = All (Grounds seat e) (requests ms)

split : {A : Type 0} (xs : List A) → (xs ≡ []) ⊎ ((x : A) × (rest : List A) × (xs ≡ x ∷ rest))
split [] = inl refl
split (x ∷ rest) = inr (x, rest, refl)

folded_asks_nothing : (s : Snapshot) (f : Fact) → requests (fold_applied s (apply s f)) ≡ []
unfolding fold_applied announce_open
folded_asks_nothing s f = elim (Option-cases (apply s f)) [
  | inl p ↦ rw p refl
  | inr (t, p) ↦ rw p (unfold announce_open in ground arith)
]

answer_asks_nothing :
    (r : AnnounceReq) (a : Answer) (s : Snapshot) (ms : List Mail)
    → fold_answer r a s ≡ some ms
    → requests ms ≡ []
unfolding fold_answer settle announce_open
answer_asks_nothing r a s ms p = ground arith

settle_asks_nothing : (s : Snapshot) → requests (settle s []) ≡ []
unfolding settle announce_open
settle_asks_nothing s = ground arith

viable-IsClear :
    (s : Snapshot) → announce_viable (record s { announcing = none }) ≡ true → IsClear s
unfolding announce_viable ready
viable-IsClear s p = ground arith

woken_authorized :
    (d : ADeferred) (k : AWake) (s : Snapshot) (ms : List Mail)
    → wake_deferred d k s ≡ some ms
    → Grounded (live s) (woken k) ms
unfolding wake_deferred
woken_authorized d k s ms p =
    ground (arith, viable-IsClear s, settle_asks_nothing (record s { announcing = none }))

recover_authorized :
    (f : RecoverFact) (s : Snapshot) (o : Option AnnounceReq)
    → s.blocked ≡ o
    → Grounded (live s) (recovered f) (recover_blocked f s o)
unfolding recover_blocked
recover_authorized f s none p = ground arith
recover_authorized f s (some r) p = ground (arith, eq_iff f.op r.op, eq_iff f.target "readiness")

candidate-IsClear :
    (s : Snapshot)
    → announce_viable (record s { candidate = false }) ≡ true
    → IsClear s × (s.announcing ≡ none)
unfolding announce_viable ready
candidate-IsClear s p = ground arith

authorize_authorized : (s : Snapshot) → Grounded (live s) authorized (authorize s)
unfolding authorize
authorize_authorized s = ground (arith, candidate-IsClear s)

live_authorized :
    (w v : ReadyState) (s : Snapshot) (e : ReadyEvent) (ms : List Mail)
    → fire_live w s e ≡ some (v, ms)
    → All (Grounds (live s) e) (requests ms)
unfolding fire_live recover
live_authorized w v s (folded f) ms p = ground (arith, folded_asks_nothing s f)
live_authorized w v s authorized ms p = ground (arith, authorize_authorized s)
live_authorized w v s (recovered f) ms p = ground (arith, recover_authorized f s s.blocked refl)
live_authorized w v s (closed c) ms p = unfold end in ground arith
live_authorized w v s (answered a) ms p = elim (split w.out) [
  | inl n ↦ ground arith
  | inr (r, rest, q) ↦ elim (Option-cases (fold_answer r a s)) [
    | inl k ↦ ground arith
    | inr (x, k) ↦ ground (arith, answer_asks_nothing r a s x k)
  ]
]
live_authorized w v s (woken k) ms p = elim (split w.deferred) [
  | inl n ↦ ground arith
  | inr (d, rest, q) ↦ elim (Option-cases (wake_deferred d k s)) [
    | inl j ↦ ground arith
    | inr (x, j) ↦ ground (arith, woken_authorized d k s x j)
  ]
]

seat_authorized :
    (w : ReadyState) (seat : Seat) (v : ReadyState) (e : ReadyEvent) (ms : List Mail)
    → fire_seat w seat e ≡ some (v, ms)
    → All (Grounds seat e) (requests ms)
unfolding fire_seat fire_ended drain
seat_authorized w (live s) v e ms p = live_authorized w v s e ms p
seat_authorized w (ended x) v e ms p = ground arith

-- A firing of the readiness loop asks the announce gate for `r` only on these grounds. A candidate:
-- the snapshot is ready, it is not closing, nothing of its incarnation is announced, none is in custody
-- or blocked, and `r` is the request that the snapshot spells. A wake: the snapshot is ready, not
-- closing, nothing of its incarnation is announced or blocked, and `r` is the one in custody. A recovery:
-- `r` is the blocked request that the recovery names, and the loop is not closing. No other event and no
-- ended loop asks.
pub request_is_authorized :
    (w v : ReadyState) (e : ReadyEvent) (ms : List Mail)
    → fire w e ≡ some (v, ms)
    → All (Grounds w.seat e) (requests ms)
unfolding fire
request_is_authorized w v e ms p = seat_authorized w w.seat v e ms p
