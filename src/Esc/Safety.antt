-- ===== src/Esc/Safety.antt =====
-- When the ladder may ask for a push, and evidence that it absorbs.
use hamsterdan.Base.{
  ℕ, Bool, true, false, not, ◌&&◌, Option, some, List, [], ◌∷◌, ◌≡◌, arith, is_some, eq_iff,
  pair_lt, pair_le, get, get-put, All,
}
use hamsterdan.Colors.{Rung, Ladder, RerunReq, Mail, ChecksFailure, mut_requests, Disposition}
use hamsterdan.Esc.{
  key_of, evidence, repair_request, decide, recover, fold_rerun_landed, fold_rerun_moved,
  fold_rerun_fault, fold_settled, end, drain_recover, watermark, blocked_of,
}
use hamsterdan.Esc.Protocol.{
  EscState, at_rest, in_gate, ended, EscEvent, failed, recovered, settled, closed, landed, moved,
  faulted, landed_of, emit, run, reached,
}

-- the rung's rerun is done and was answered by older evidence
abbrev pub outran : ChecksFailure → Option Rung → Bool
outran f (some (Rung.done run_id attempt)) = pair_lt (run_id, attempt) (evidence f)
outran f _ = false

-- the ladder is open, the rerun has failed on strictly newer evidence, and no repair was asked for
abbrev pub earned : ChecksFailure → Ladder → Bool
earned f l =
    not (is_some l.closing)
    && outran f (get (key_of f) l.reruns)
    && not (is_some (get (key_of f) l.repairs))

-- A request to push stands for the failure that is being decided, and is earned.
abbrev pub IsEarned : EscState → EscEvent → Mail → Type 0
IsEarned (at_rest l) (failed f) (mut_requests m) = (m ≡ repair_request f) × (earned f l ≡ true)
IsEarned s e (mut_requests m) = ⊥
IsEarned s e _ = Unit

decide-IsEarned :
    (f : ChecksFailure) (l : Ladder) (ms : List Mail)
    → decide f l ≡ some ms
    → All (IsEarned (at_rest l) (failed f)) ms
unfolding decide
decide-IsEarned f l ms p = ground arith

-- Fail-closed: no transition asks the mutation loop for a push but the decision on a failure, under
-- that failure's claim, and only in an open ladder whose rerun for the rung is done on strictly
-- older evidence (not faulted, not open) and that has no repair for the rung.
pub push-IsEarned :
    (s : EscState) (e : EscEvent) (ms : List Mail) → emit s e ≡ some ms → All (IsEarned s e) ms
unfolding emit
push-IsEarned (at_rest l) (failed f) ms p = decide-IsEarned f l ms p
push-IsEarned (at_rest l) (recovered r) ms p = unfold recover in ground arith
push-IsEarned (at_rest l) (settled m) ms p = unfold fold_settled in ground arith
push-IsEarned (at_rest l) (closed c) ms p = unfold end in ground arith
push-IsEarned (in_gate r) (landed d i a) ms p = unfold fold_rerun_landed in ground arith
push-IsEarned (in_gate r) moved ms p = unfold fold_rerun_moved in ground arith
push-IsEarned (in_gate r) (faulted x) ms p = unfold fold_rerun_fault in ground arith
push-IsEarned (ended e) (recovered r) ms p = unfold drain_recover in ground arith
push-IsEarned s e ms p = ground arith

-- A failure with evidence at or below the cut that the gate read before it issued the rerun changes
-- nothing once the rerun has landed: it is absorbed, whatever the ladder held.
pub cut_absorbs :
    (r : RerunReq) (run_id attempt : ℕ) (g : ChecksFailure)
    → key_of g ≡ r.fingerprint
    → pair_le (evidence g) (run_id, attempt) ≡ true
    → reached (run (in_gate r) (landed Disposition.requested run_id attempt ∷ failed g ∷ []))
      ≡ reached (run (in_gate r) (landed Disposition.requested run_id attempt ∷ []))
unfolding run emit fold_rerun_landed decide
cut_absorbs r i a g k h =
    let o = landed_of r Disposition.requested i a in
    let mark = watermark o (blocked_of (get r.fingerprint r.mem.rerun_faults)) in
    ground (
      arith,
      get-put r.fingerprint (key_of g) (Rung.done mark.0 mark.1) r.mem.reruns,
      eq_iff r.fingerprint (key_of g),
    )
