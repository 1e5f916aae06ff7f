-- ===== src/Esc/Soundness.antt =====
-- A faulted rung has its retained request, so that no fold of the ladder raises.
use hamsterdan.Base.{
  String, true, false, Option, none, some, List, [], ◌∷◌, ◌++◌, ◌≡◌, ◌≢◌, inl, inr, refl, arith,
  is_some, Option-cases, eq_iff, get, get-put, get-without,
}
use hamsterdan.Colors.{
  Rung, Ladder, RerunReq, RerunMoved, RerunFault, CloseFact, Mail, FaultEntry, ChecksFailure,
  RerunLanded, RecoverFact, MutationSettled,
}
use hamsterdan.Esc.{
  seed, is_faulted, find_op, retain, retained_of, blocked_of, watermark, decide_rung, recover_found,
  key_of, decide, recover, fold_rerun_landed, fold_rerun_moved, fold_rerun_fault, fold_settled, end,
  drain_recover,
}
use hamsterdan.Esc.Protocol.{
  EscState, at_rest, in_gate, ended, EscEvent, failed, recovered, settled, closed, landed, moved,
  faulted, placed, landed_of, moved_of, fault_of, emit, run,
}

-- at the key `k`
abbrev pub IsRetained : String → Ladder → Type 0
IsRetained k l = is_faulted (get k l.reruns) ≡ true → is_some (get k l.rerun_faults) ≡ true

abbrev pub Retains : String → EscState → Type 0
Retains k (at_rest l) = IsRetained k l
Retains k (in_gate r) = IsRetained k r.mem × (is_faulted (get r.fingerprint r.mem.reruns) ≡ false)
Retains k (ended e) = Unit

-- Every faulted rung has its retained request, and the rung of a rerun in flight is not faulted.
abbrev pub IsSound : EscState → Type 0
IsSound s = (k : String) → Retains k s

pub seed-IsSound : IsSound (at_rest seed)
unfolding get
seed-IsSound k h = cc

module _ (k : String) where
  retain_keeps :
      (f : ChecksFailure) (held : FaultEntry) (l : Ladder)
      → IsRetained k l
      → IsRetained k (retain f held l)
  retain_keeps f held l h =
      ground (arith, get-put (key_of f) k (record held { blocked = some f }) l.rerun_faults, h)

  rung_keeps :
      (f : ChecksFailure) (l : Ladder) (rung : Option Rung) (ms : List Mail)
      → get (key_of f) l.reruns ≡ rung
      → decide_rung f l rung ≡ some ms
      → IsRetained k l
      → Retains k (placed (at_rest l) ms)
  unfolding decide_rung
  rung_keeps f l none ms e p h = ground arith
  rung_keeps f l (some (Rung.done i a)) ms e p h = ground arith
  rung_keeps f l (some Rung.fault) ms e p h = elim (Option-cases (get (key_of f) l.rerun_faults)) [
    | inl q ↦ cc (rw q at p)
    | inr (held, q) ↦ ground (arith, q, retain_keeps f held l h)
  ]

  decide_keeps :
      (f : ChecksFailure) (l : Ladder) (ms : List Mail)
      → decide f l ≡ some ms
      → IsRetained k l
      → Retains k (placed (at_rest l) ms)
  unfolding decide
  decide_keeps f l ms p h = ground (arith, rung_keeps f l (get (key_of f) l.reruns) ms refl)

  recover-Keeps :
      (r : RecoverFact) (l : Ladder) → IsRetained k l → Retains k (placed (at_rest l) (recover r l))
  unfolding recover
  recover-Keeps r l h = elim (Option-cases (find_op r.op l.rerun_faults)) [
    | inl q ↦ rw (q, recover_found) h
    | inr ((key, held), q) ↦
        rw (q, recover_found)
          (ground (arith, get-without key k l.reruns, get-without key key l.reruns, eq_iff key key))
  ]

  landed_keeps :
      (q : RerunReq) (o : RerunLanded)
      → IsRetained k o.mem
      → Retains k (placed (in_gate q) (fold_rerun_landed o))
  unfolding fold_rerun_landed
  landed_keeps q o h =
      let mark = watermark o (blocked_of (get o.fingerprint o.mem.rerun_faults)) in
      ground (
        arith,
        get-put o.fingerprint k (Rung.done mark.0 mark.1) o.mem.reruns,
        get-without o.fingerprint k o.mem.rerun_faults,
      )

  moved_keeps :
      (q : RerunReq) (o : RerunMoved)
      → IsRetained k o.mem
      → is_faulted (get o.fingerprint o.mem.reruns) ≡ false
      → Retains k (placed (in_gate q) (fold_rerun_moved o))
  unfolding fold_rerun_moved
  moved_keeps q o h g =
      ground (arith, get-without o.fingerprint k o.mem.rerun_faults, eq_iff o.fingerprint k)

  fault_keeps :
      (q : RerunReq) (o : RerunFault)
      → IsRetained k o.mem
      → Retains k (placed (in_gate q) (fold_rerun_fault o))
  unfolding fold_rerun_fault
  fault_keeps q o h = ground (
    arith,
    get-put o.fingerprint k Rung.fault o.mem.reruns,
    get-put o.fingerprint k (retained_of o) o.mem.rerun_faults,
  )

  settled_keeps :
      (m : MutationSettled) (l : Ladder)
      → IsRetained k l
      → Retains k (placed (at_rest l) (fold_settled m l))
  unfolding fold_settled
  settled_keeps m l h = ground arith

  end-Keeps :
      (c : CloseFact) (l : Ladder) → IsRetained k l → Retains k (placed (at_rest l) (end c l))
  unfolding end
  end-Keeps c l h = ground arith

  emit_keeps :
      (s : EscState) (e : EscEvent) (ms : List Mail)
      → emit s e ≡ some ms
      → Retains k s
      → Retains k (placed s ms)
  unfolding emit
  emit_keeps (at_rest l) (failed f) ms p h = decide_keeps f l ms p h
  emit_keeps (at_rest l) (recovered r) ms p h = ground (arith, recover-Keeps r l h)
  emit_keeps (at_rest l) (settled m) ms p h = ground (arith, settled_keeps m l h)
  emit_keeps (at_rest l) (closed c) ms p h = ground (arith, end-Keeps c l h)
  emit_keeps (in_gate r) (landed d i a) ms p h =
      ground (arith, landed_keeps r (landed_of r d i a) h.0)
  emit_keeps (in_gate r) moved ms p h = ground (arith, moved_keeps r (moved_of r) h.0 h.1)
  emit_keeps (in_gate r) (faulted x) ms p h = ground (arith, fault_keeps r (fault_of r x) h.0)
  emit_keeps (ended e) (recovered r) ms p h = unfold drain_recover in ground arith
  emit_keeps s e ms p h = ground arith

decide-ne-none : (f : ChecksFailure) (l : Ladder) → IsRetained (key_of f) l → decide f l ≢ none
unfolding decide
decide-ne-none f l h p = ground arith

emit-ne-none : (s : EscState) (e : EscEvent) → IsSound s → emit s e ≢ none
unfolding emit
emit-ne-none (at_rest l) (failed f) h p = decide-ne-none f l (h (key_of f)) p
emit-ne-none s e h p = ground arith

-- From a sound state no transition of the ladder raises, the faulted rung's retained request
-- included; and every state that a run reaches is sound.
pub ladder_run_total :
    (es : List EscEvent) (s : EscState)
    → IsSound s
    → (r : EscState × List Mail) × (run s es ≡ some r) × IsSound r.0
unfolding run
ladder_run_total [] s h = ((s, []), refl, h)
ladder_run_total (e ∷ es) s h = elim (Option-cases (emit s e)) [
  | inl p ↦ absurd (emit-ne-none s e h p)
  | inr (ms, p) ↦
      let (r, q, g) = ladder_run_total es (placed s ms) (λ k. emit_keeps k s e ms p (h k)) in
      ((r.0, ms ++ r.1), rw (p, run) (rw q refl), g)
]
