-- ===== src/Esc/Reruns.antt =====
-- One rerun for each rung key, and one more for each round that moved and for each recovery.
use hamsterdan.Base.{
  one_if, ℕ, ◌+◌, ◌≤◌, String, Option, none, some, List, [], ◌∷◌, ◌++◌, ◌≡◌, inl, inr, refl, arith,
  is_some, Option-cases, eq_iff, ◌==◌, get, get-put, get-without, if◌then◌else◌,
}
use hamsterdan.Colors.{
  Rung, Ladder, RerunReq, Mail, ChecksFailure, RecoverFact, MutationSettled, Disposition,
  esc_rerun_req,
}
use hamsterdan.Esc.{
  seed, key_of, decide, decide_rung, recover, recover_found, find_op, fold_rerun_landed,
  fold_rerun_moved, fold_rerun_fault, fold_settled, end, drain_recover, watermark, blocked_of,
}
use hamsterdan.Esc.Soundness.{seed-IsSound, ladder_run_total}
use hamsterdan.Esc.Protocol.{
  EscState, at_rest, in_gate, ended, EscEvent, failed, recovered, settled, closed, landed, moved,
  faulted, placed, landed_of, moved_of, fault_of, emit, run, run-cons,
}

-- the reruns that the tokens request for the rung key `k`
abbrev pub reruns_of : String → List Mail → ℕ
reruns_of k [] = 0
reruns_of k (esc_rerun_req r ∷ ms) = one_if (r.fingerprint == k) + reruns_of k ms
reruns_of k (_ ∷ ms) = reruns_of k ms

-- the rounds that moved, and the recoveries
abbrev pub reopened : List EscEvent → ℕ
reopened [] = 0
reopened (moved ∷ es) = 1 + reopened es
reopened (recovered r ∷ es) = 1 + reopened es
reopened (_ ∷ es) = reopened es

abbrev held_in : String → Ladder → ℕ
held_in k l = one_if (is_some (get k l.reruns))

abbrev held : String → EscState → ℕ
held k (at_rest l) = held_in k l
held k (in_gate r) = if r.fingerprint == k then 1 else held_in k r.mem
held k (ended e) = one_if (is_some (get k e.reruns))

reopened-cons :
    (e : EscEvent) (es : List EscEvent) → reopened (e ∷ es) ≡ reopened (e ∷ []) + reopened es
reopened-cons moved es = omega arith
reopened-cons _ es = omega arith

module _ (k : String) where
  decide_rung-held :
      (f : ChecksFailure) (l : Ladder) (o : Option Rung) (ms : List Mail)
      → get (key_of f) l.reruns ≡ o
      → decide_rung f l o ≡ some ms
      → reruns_of k ms + held_in k l ≤ held k (placed (at_rest l) ms)
  unfolding decide_rung
  decide_rung-held f l none ms e p = ground (arith, eq_iff (key_of f) k)
  decide_rung-held f l (some Rung.fault) ms e p = ground arith
  decide_rung-held f l (some (Rung.done i a)) ms e p = ground arith

  recover-held :
      (r : RecoverFact) (l : Ladder)
      → let ms = recover r l in reruns_of k ms + held_in k l ≤ held k (placed (at_rest l) ms) + 1
  unfolding recover
  recover-held r l = elim (Option-cases (find_op r.op l.rerun_faults)) [
    | inl q ↦ rw (q, recover_found) (ground arith)
    | inr ((key, x), q) ↦
        rw (q, recover_found) (ground (arith, get-without key k l.reruns, eq_iff key k))
  ]

  landed_held :
      (q : RerunReq) (d : Disposition) (i a : ℕ)
      → let ms = fold_rerun_landed (landed_of q d i a) in
        reruns_of k ms + held k (in_gate q) ≤ held k (placed (in_gate q) ms)
  unfolding fold_rerun_landed
  landed_held q d i a =
      let o = landed_of q d i a in
      let mark = watermark o (blocked_of (get q.fingerprint q.mem.rerun_faults)) in
      ground (arith, get-put q.fingerprint k (Rung.done mark.0 mark.1) q.mem.reruns)

  moved_held :
      (q : RerunReq)
      → let ms = fold_rerun_moved (moved_of q) in
        reruns_of k ms + held k (in_gate q) ≤ held k (placed (in_gate q) ms) + 1
  unfolding fold_rerun_moved
  moved_held q = ground arith

  fault_held :
      (q : RerunReq) (x : String)
      → let ms = fold_rerun_fault (fault_of q x) in
        reruns_of k ms + held k (in_gate q) ≤ held k (placed (in_gate q) ms)
  unfolding fold_rerun_fault
  fault_held q x = ground (arith, get-put q.fingerprint k Rung.fault q.mem.reruns)

  settled_held :
      (m : MutationSettled) (l : Ladder)
      → let ms = fold_settled m l in reruns_of k ms + held_in k l ≤ held k (placed (at_rest l) ms)
  unfolding fold_settled
  settled_held m l = ground arith

  emit-held :
      (s : EscState) (e : EscEvent) (ms : List Mail)
      → emit s e ≡ some ms
      → reruns_of k ms + held k s ≤ held k (placed s ms) + reopened (e ∷ [])
  unfolding emit
  emit-held (at_rest l) (failed f) ms p =
      unfold decide in ground (arith, decide_rung-held f l (get (key_of f) l.reruns) ms refl)
  emit-held (at_rest l) (recovered r) ms p = ground (arith, recover-held r l)
  emit-held (at_rest l) (settled m) ms p = ground (arith, settled_held m l)
  emit-held (at_rest l) (closed c) ms p = unfold end in ground arith
  emit-held (in_gate r) (landed d i a) ms p = ground (arith, landed_held r d i a)
  emit-held (in_gate r) moved ms p = ground (arith, moved_held r)
  emit-held (in_gate r) (faulted x) ms p = ground (arith, fault_held r x)
  emit-held (ended e) (recovered r) ms p = unfold drain_recover in ground arith
  emit-held s e ms p = ground arith

  reruns_of-append : (ms ns : List Mail) → reruns_of k (ms ++ ns) ≡ reruns_of k ms + reruns_of k ns
  reruns_of-append [] ns = omega arith
  reruns_of-append (esc_rerun_req m ∷ ms) ns = omega (arith, reruns_of-append ms ns)
  reruns_of-append (_ ∷ ms) ns = reruns_of-append ms ns

  run-held :
      (es : List EscEvent) (s : EscState) (r : EscState × List Mail)
      → run s es ≡ some r
      → reruns_of k r.1 + held k s ≤ held k r.0 + reopened es
  unfolding run
  run-held [] s r p = ground arith
  run-held (e ∷ es) s r p =
      let c = run-cons s e es r p in
      ground (
        arith,
        c.joined,
        emit-held s e c.tokens c.emitted,
        run-held es (placed s c.tokens) c.rest c.ran,
        reruns_of-append c.tokens c.rest.1,
        reopened-cons e es,
      )

  held-le-one : (s : EscState) → held k s ≤ 1
  held-le-one (at_rest l) = ground arith
  held-le-one (in_gate r) = ground arith
  held-le-one (ended e) = ground arith

  -- From a new ladder every run goes through, and for each rung key it requests at most one rerun,
  -- and one more for each round that moved and for each recovery.
  pub rerun_budget :
      (es : List EscEvent)
      → (r : EscState × List Mail) × (run (at_rest seed) es ≡ some r)
        × (reruns_of k r.1 ≤ 1 + reopened es)
  rerun_budget es =
      let (r, p, h) = ladder_run_total es (at_rest seed) seed-IsSound in
      (r, p, omega (arith, run-held es (at_rest seed) r p, held-le-one r.0))
