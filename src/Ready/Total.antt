-- ===== src/Ready/Total.antt =====
-- The exceptions of readiness.py that no run reaches: a gate answer that echoes no request in custody,
-- and a deferral that is not the snapshot's.
use hamsterdan.Base.{ℕ, zero, suc, true, some, List, [], ◌∷◌, ◌≡◌, refl, arith, is_some}
use hamsterdan.Colors.{Snapshot, AnnounceReq, ADeferred, AWake, Mail}
use hamsterdan.Ready.{deferred_request, wakes, fold_adeferred, wake_deferred}
use hamsterdan.Ready.Protocol.{
  Seat, live, ended, ReadyState, newborn, Answer, ReadyEvent, folded, authorized, answered, woken,
  recovered, closed, fold_answer, fire, fire_live, fire_ended, fire_seat, run,
}
use hamsterdan.Ready.Custody.{Custody, SeatCustody, newborn-IsCustodied, req_eq_refl, state_of}
use hamsterdan.Ready.Once.{run_logs}

-- a wake is the one of the deferred announcement
abbrev pub Wakes : List ADeferred → ReadyEvent → Type 0
Wakes (d ∷ ds) (woken k) = wakes d k ≡ true
Wakes _ _ = Unit

answer_total :
    (r : AnnounceReq) (a : Answer) (s : Snapshot) (out : List AnnounceReq)
    (waiting : List ADeferred) (n : ℕ)
    → Custody s (r ∷ out) waiting n
    → is_some (fold_answer r a s) ≡ true
unfolding fold_answer fold_adeferred
answer_total r a s out waiting n h = ground (arith, req_eq_refl r)

woken_total :
    (d : ADeferred) (k : AWake) (s : Snapshot) (out : List AnnounceReq) (waiting : List ADeferred)
    (n : ℕ)
    → Custody s out (d ∷ waiting) n
    → wakes d k ≡ true
    → is_some (wake_deferred d k s) ≡ true
unfolding wake_deferred
woken_total d k s out waiting n h p = ground (arith, req_eq_refl (deferred_request d))

seat_total :
    (seat : Seat) (out : List AnnounceReq) (waiting : List ADeferred) (n : ℕ) (e : ReadyEvent)
    → SeatCustody seat out waiting n
    → Wakes waiting e
    → is_some (fire (state_of seat out waiting n) e) ≡ true
unfolding fire fire_seat fire_live fire_ended
seat_total (live s) out waiting zero authorized h p = refl
seat_total (live s) out waiting (suc n) authorized h p = refl
seat_total (live s) out waiting n (folded f) h p = refl
seat_total (live s) out waiting n (recovered f) h p = refl
seat_total (live s) out waiting n (closed f) h p = refl
seat_total (live s) [] waiting n (answered a) h p = refl
seat_total (live s) (r ∷ out) waiting n (answered a) h p =
    ground (arith, answer_total r a s out waiting n h)
seat_total (live s) out [] n (woken k) h p = refl
seat_total (live s) out (d ∷ waiting) n (woken k) h p =
    ground (arith, woken_total d k s out waiting n h p)
seat_total (ended x) out waiting n e h p = ground arith

-- In a state that a run of the readiness loop reaches from its newborn state, every event goes through:
-- no fold raises, provided that a wake is the one of the deferred announcement.
pub reached_total :
    (es : List ReadyEvent) (w : ReadyState) (ms : List Mail) (e : ReadyEvent)
    → run newborn es ≡ some (w, ms)
    → Wakes w.deferred e
    → is_some (fire w e) ≡ true
reached_total es w ms e p h =
    seat_total w.seat w.out w.deferred w.candidates e
      ((run_logs newborn es (w, ms) p newborn-IsCustodied).0) h
