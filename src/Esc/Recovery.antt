-- ===== src/Esc/Recovery.antt =====
-- A faulted rerun is reissued as the operation that it was.
use hamsterdan.Base.{
  String, Option, none, some, List, [], ◌∷◌, ◌≡◌, inl, inr, sym, arith, Option-cases, Bool-cases,
  eq_iff, ◌==◌, Dict, get, put, without, get-put, ◌⧺◌, All,
}
use mathlib.Core.Path.{subst}
use text.Mathlib.TextLemmas.{append_cancel_left}
use hamsterdan.Colors.{
  Rung, Ladder, RerunReq, Mail, FaultEntry, ChecksFailure, RecoverFact, esc_rerun_req,
}
use hamsterdan.Esc.{
  seed, key_of, decide, decide_rung, retain, recover, recover_found, find_op, fold_rerun_landed,
  fold_rerun_moved, fold_rerun_fault, fold_settled, end, drain_recover, retained_of,
}
use hamsterdan.Esc.Protocol.{
  EscState, at_rest, in_gate, ended, EscEvent, failed, recovered, settled, closed, landed, moved,
  faulted, placed, fault_of, emit, run, run-cons, reached,
}

-- each retained fault has the operation identity of its rung
abbrev pub IsKeyed : Dict FaultEntry → Type 0
IsKeyed d = All (λ (e : String × FaultEntry). e.1.op ≡ "rerun:" ⧺ e.0) d

IsKeyed-put :
    (k : String) (v : FaultEntry) (d : Dict FaultEntry)
    → v.op ≡ "rerun:" ⧺ k
    → IsKeyed d
    → IsKeyed (put k v d)
unfolding put
IsKeyed-put k v [] e h = (e, tt)
IsKeyed-put k v ((j, w) ∷ d) e h = elim (Bool-cases (j == k)) [
  | inl q ↦ rw q (e, h.1)
  | inr q ↦ rw q (h.0, IsKeyed-put k v d e h.1)
]

IsKeyed-without : (k : String) (d : Dict FaultEntry) → IsKeyed d → IsKeyed (without k d)
unfolding without
IsKeyed-without k [] h = tt
IsKeyed-without k ((j, w) ∷ d) h = elim (Bool-cases (j == k)) [
  | inl q ↦ rw q (IsKeyed-without k d h.1)
  | inr q ↦ rw q (h.0, IsKeyed-without k d h.1)
]

op-get :
    (k : String) (d : Dict FaultEntry) (v : FaultEntry)
    → IsKeyed d
    → get k d ≡ some v
    → v.op ≡ "rerun:" ⧺ k
unfolding get
op-get k [] v h p = cc
op-get k ((j, w) ∷ d) v h p = ground (arith, eq_iff j k, op-get k d v h.1)

rerun_inj : (j k : String) → "rerun:" ⧺ j ≡ "rerun:" ⧺ k → j ≡ k
rerun_inj j k h = append_cancel_left "rerun:" j k h

-- in a keyed dictionary a search by operation is a look-up by key
find_op-get :
    (k : String) (d : Dict FaultEntry) (v : FaultEntry)
    → IsKeyed d
    → get k d ≡ some v
    → find_op ("rerun:" ⧺ k) d ≡ some (k, v)
unfolding get
find_op-get k [] v h p = cc
find_op-get k ((j, w) ∷ d) v h p =
    ground (arith, eq_iff j k, eq_iff w.op ("rerun:" ⧺ k), rerun_inj j k, find_op-get k d v h.1)

op-find_op :
    (op : String) (d : Dict FaultEntry) (k : String) (v : FaultEntry)
    → IsKeyed d
    → find_op op d ≡ some (k, v)
    → v.op ≡ "rerun:" ⧺ k
op-find_op op [] k v h p = cc
op-find_op op ((j, w) ∷ d) k v h p = ground (arith, op-find_op op d k v h.1)

abbrev pub Keys : EscState → Type 0
Keys (at_rest l) = IsKeyed l.rerun_faults
Keys (in_gate r) = IsKeyed r.mem.rerun_faults × (r.op ≡ "rerun:" ⧺ r.fingerprint)
Keys (ended e) = Unit

retain-IsKeyed :
    (f : ChecksFailure) (x : FaultEntry) (l : Ladder)
    → x.op ≡ "rerun:" ⧺ key_of f
    → IsKeyed l.rerun_faults
    → IsKeyed (retain f x l).rerun_faults
retain-IsKeyed f x l e h =
    ground (arith, IsKeyed-put (key_of f) (record x { blocked = some f }) l.rerun_faults e h)

decide_keyed :
    (f : ChecksFailure) (l : Ladder) (o : Option Rung) (ms : List Mail)
    → decide_rung f l o ≡ some ms
    → IsKeyed l.rerun_faults
    → Keys (placed (at_rest l) ms)
unfolding decide_rung
decide_keyed f l none ms p h = ground arith
decide_keyed f l (some (Rung.done i a)) ms p h = ground arith
decide_keyed f l (some Rung.fault) ms p h = elim (Option-cases (get (key_of f) l.rerun_faults)) [
  | inl q ↦ cc (rw q at p)
  | inr (x, q) ↦ ground (arith, q, retain-IsKeyed f x l (op-get (key_of f) l.rerun_faults x h q) h)
]

recover_keyed :
    (r : RecoverFact) (l : Ladder)
    → IsKeyed l.rerun_faults
    → Keys (placed (at_rest l) (recover r l))
unfolding recover
recover_keyed r l h = elim (Option-cases (find_op r.op l.rerun_faults)) [
  | inl q ↦ rw (q, recover_found) h
  | inr ((key, x), q) ↦
      rw (q, recover_found) (ground (arith, op-find_op r.op l.rerun_faults key x h q))
]

emit_keyed :
    (s : EscState) (e : EscEvent) (ms : List Mail)
    → emit s e ≡ some ms
    → Keys s
    → Keys (placed s ms)
unfolding emit
emit_keyed (at_rest l) (failed f) ms p h =
    unfold decide in ground (arith, decide_keyed f l (get (key_of f) l.reruns) ms)
emit_keyed (at_rest l) (recovered r) ms p h = ground (arith, recover_keyed r l h)
emit_keyed (at_rest l) (settled m) ms p h = unfold fold_settled in ground arith
emit_keyed (at_rest l) (closed c) ms p h = unfold end in ground arith
emit_keyed (in_gate r) (landed d i a) ms p h =
    unfold fold_rerun_landed in ground (arith, IsKeyed-without r.fingerprint r.mem.rerun_faults h.0)
emit_keyed (in_gate r) moved ms p h =
    unfold fold_rerun_moved in ground (arith, IsKeyed-without r.fingerprint r.mem.rerun_faults h.0)
emit_keyed (in_gate r) (faulted x) ms p h =
    unfold fold_rerun_fault in
    ground
      (arith, IsKeyed-put r.fingerprint (retained_of (fault_of r x)) r.mem.rerun_faults h.1 h.0)
emit_keyed (ended e) (recovered r) ms p h = unfold drain_recover in ground arith
emit_keyed s e ms p h = ground arith

run_keyed :
    (es : List EscEvent) (s : EscState) (r : EscState × List Mail)
    → run s es ≡ some r
    → Keys s
    → Keys r.0
unfolding run
run_keyed [] s r p h = ground arith
run_keyed (e ∷ es) s r p h =
    let c = run-cons s e es r p in
    ground (
      arith,
      c.joined,
      run_keyed es (placed s c.tokens) c.rest c.ran (emit_keyed s e c.tokens c.emitted h),
    )

-- the request of the recovery round, which differs from the first in the ladder that it holds
abbrev pub reissued : RerunReq → String → RerunReq
reissued r x = record r {
  mem = record r.mem {
    reruns = without r.fingerprint (put r.fingerprint Rung.fault r.mem.reruns);
    rerun_faults = put r.fingerprint (retained_of (fault_of r x)) r.mem.rerun_faults;
  };
}

-- the ladder after the fault
abbrev faulted_ladder : RerunReq → String → Ladder
faulted_ladder r x = record r.mem {
  reruns = put r.fingerprint Rung.fault r.mem.reruns;
  rerun_faults = put r.fingerprint (retained_of (fault_of r x)) r.mem.rerun_faults;
}

recover_reissues :
    (r : RerunReq) (x : String)
    → Keys (in_gate r)
    → r.mem.closing ≡ none
    → recover (record { target = "esc"; op = r.op }) (faulted_ladder r x)
      ≡ esc_rerun_req (reissued r x) ∷ []
unfolding recover
recover_reissues r x h o =
    let v = retained_of (fault_of r x) in
    let faults = put r.fingerprint v r.mem.rerun_faults in
    let found : get r.fingerprint faults ≡ some v = ground (
      arith,
      get-put r.fingerprint r.fingerprint v r.mem.rerun_faults,
      eq_iff r.fingerprint r.fingerprint,
    ) in
    let keyed : IsKeyed faults = IsKeyed-put r.fingerprint v r.mem.rerun_faults h.1 h.0 in
    let located : find_op r.op faults ≡ some (r.fingerprint, v) =
      subst (λ (o : String). find_op o faults ≡ some (r.fingerprint, v)) (sym h.1)
        (find_op-get r.fingerprint faults v keyed found) in
    rw (located, recover_found)
      (ground (
        arith,
        get-put r.fingerprint r.fingerprint Rung.fault r.mem.reruns,
        eq_iff r.fingerprint r.fingerprint,
      ))

-- In any run from a new ladder: a rerun in flight that faults and is then recovered by its operation
-- identity is in flight again, with the same key, operation, claim and evidence, if the ladder that
-- it holds is not closing. The recovery finds it among all the faults that are retained.
pub fault-recover :
    (es : List EscEvent) (r : RerunReq) (sent : List Mail) (x : String)
    → run (at_rest seed) es ≡ some (in_gate r, sent)
    → r.mem.closing ≡ none
    → reached (run (in_gate r) (faulted x ∷ recovered (record { target = "esc"; op = r.op }) ∷ []))
      ≡ some (in_gate (reissued r x))
unfolding run emit fold_rerun_fault
fault-recover es r sent x p o =
    let keyed : Keys (in_gate r) = run_keyed es (at_rest seed) (in_gate r, sent) p tt in
    rw (recover_reissues r x keyed o)
