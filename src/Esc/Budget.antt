-- ===== src/Esc/Budget.antt =====
-- One rerun and one repair for each rung key, and one more for each that moved.
use hamsterdan.Base.{
  one_if, ℕ, ◌+◌, ◌≤◌, String, true, Option, none, some, List, [], ◌∷◌, ◌++◌, ◌≡◌, inl, inr, refl,
  arith, is_some, Option-cases, eq_iff, ◌==◌, get, get-put, get-without, ◌⧺◌,
}
use text.Mathlib.TextLemmas.{append_cancel_left}
use hamsterdan.Colors.{
  Rung, RepairState, Ladder, RerunReq, Mail, RepairEntry, ChecksFailure, RerunLanded, RerunMoved,
  RerunFault, RecoverFact, MutationSettled, Outcome, mut_requests,
}
use hamsterdan.Esc.{
  seed, key_of, decide, decide_rung, decide_repair, recover, fold_rerun_landed, fold_rerun_moved,
  fold_rerun_fault, fold_settled, settle_found, settle_entry, end, drain_recover, pending_entry,
}
use hamsterdan.Esc.Soundness.{seed-IsSound, ladder_run_total}
use hamsterdan.Esc.Protocol.{
  EscState, at_rest, in_gate, ended, EscEvent, failed, recovered, settled, closed, landed, moved,
  faulted, placed, landed_of, moved_of, fault_of, emit, run, run-cons,
}

-- the repairs that the tokens request for the rung key `k`
abbrev pub repairs_of : String → List Mail → ℕ
repairs_of k [] = 0
repairs_of k (mut_requests m ∷ ms) = one_if (m.rid == "repair:" ⧺ k) + repairs_of k ms
repairs_of k (_ ∷ ms) = repairs_of k ms

-- the settlements that give a repair of `k` back
abbrev pub refunds : String → List EscEvent → ℕ
refunds k [] = 0
refunds k (settled m ∷ es) = elim m.outcome [
  | Outcome.moved ↦ one_if (m.fingerprint == k) + refunds k es
  | _ ↦ refunds k es
]
refunds k (_ ∷ es) = refunds k es

abbrev spent_in : String → Ladder → ℕ
spent_in k l = one_if (is_some (get k l.repairs))

abbrev spent : String → EscState → ℕ
spent k (at_rest l) = spent_in k l
spent k (in_gate r) = spent_in k r.mem
spent k (ended e) = one_if (is_some (get k e.repairs))

repair_inj : (j k : String) → ("repair:" ⧺ j == "repair:" ⧺ k) ≡ true → j ≡ k
repair_inj j k h = append_cancel_left "repair:" j k ((eq_iff _ _).0 h)

module _ (k : String) where
  decide_repair-spent :
      (f : ChecksFailure) (l : Ladder) (o : Option RepairEntry)
      → get (key_of f) l.repairs ≡ o
      → let ms = decide_repair f l o in
        repairs_of k ms + spent_in k l ≤ spent k (placed (at_rest l) ms)
  unfolding decide_repair
  decide_repair-spent f l none e = ground (
    arith,
    get-put (key_of f) k (pending_entry f) l.repairs,
    repair_inj (key_of f) k,
    eq_iff (key_of f) k,
  )
  decide_repair-spent f l (some x) e = ground arith

  decide_rung-spent :
      (f : ChecksFailure) (l : Ladder) (o : Option Rung) (ms : List Mail)
      → decide_rung f l o ≡ some ms
      → repairs_of k ms + spent_in k l ≤ spent k (placed (at_rest l) ms)
  unfolding decide_rung
  decide_rung-spent f l none ms p = ground arith
  decide_rung-spent f l (some Rung.fault) ms p = ground arith
  decide_rung-spent f l (some (Rung.done i a)) ms p =
      ground (arith, decide_repair-spent f l (get (key_of f) l.repairs) refl)

  recover-spent :
      (r : RecoverFact) (l : Ladder)
      → let ms = recover r l in repairs_of k ms + spent_in k l ≤ spent k (placed (at_rest l) ms)
  unfolding recover
  recover-spent r l = ground arith

  landed_spent :
      (q : RerunReq) (o : RerunLanded)
      → let ms = fold_rerun_landed o in
        repairs_of k ms + spent_in k o.mem ≤ spent k (placed (in_gate q) ms)
  unfolding fold_rerun_landed
  landed_spent q o = ground arith

  moved_spent :
      (q : RerunReq) (o : RerunMoved)
      → let ms = fold_rerun_moved o in
        repairs_of k ms + spent_in k o.mem ≤ spent k (placed (in_gate q) ms)
  unfolding fold_rerun_moved
  moved_spent q o = ground arith

  fault_spent :
      (q : RerunReq) (o : RerunFault)
      → let ms = fold_rerun_fault o in
        repairs_of k ms + spent_in k o.mem ≤ spent k (placed (in_gate q) ms)
  unfolding fold_rerun_fault
  fault_spent q o = ground arith

  settle_entry-spent :
      (m : MutationSettled) (l : Ladder) (x : RepairEntry) (o : Outcome)
      → m.outcome ≡ o
      → let ms = settle_entry m l x o in
        repairs_of k ms + spent_in k l
        ≤ spent k (placed (at_rest l) ms) + refunds k (settled m ∷ [])
  unfolding settle_entry
  settle_entry-spent m l x Outcome.landed e =
      ground (arith, get-put m.fingerprint k (record x { state = RepairState.done }) l.repairs)
  settle_entry-spent m l x Outcome.declined e =
      ground (arith, get-put m.fingerprint k (record x { state = RepairState.declined }) l.repairs)
  settle_entry-spent m l x Outcome.moved e = ground (arith, get-without m.fingerprint k l.repairs)
  settle_entry-spent m l x Outcome.faulted e =
      ground (arith, get-put m.fingerprint k (record x { state = RepairState.fault }) l.repairs)

  settled-spent :
      (m : MutationSettled) (l : Ladder)
      → let ms = fold_settled m l in
        repairs_of k ms + spent_in k l
        ≤ spent k (placed (at_rest l) ms) + refunds k (settled m ∷ [])
  unfolding fold_settled
  settled-spent m l = elim (Option-cases (get m.fingerprint l.repairs)) [
    | inl q ↦ rw (q, settle_found) (ground arith)
    | inr (x, q) ↦ rw (q, settle_found) (ground (arith, settle_entry-spent m l x m.outcome refl))
  ]

  emit-spent :
      (s : EscState) (e : EscEvent) (ms : List Mail)
      → emit s e ≡ some ms
      → repairs_of k ms + spent k s ≤ spent k (placed s ms) + refunds k (e ∷ [])
  unfolding emit
  emit-spent (at_rest l) (failed f) ms p =
      unfold decide in ground (arith, decide_rung-spent f l (get (key_of f) l.reruns) ms)
  emit-spent (at_rest l) (recovered r) ms p = ground (arith, recover-spent r l)
  emit-spent (at_rest l) (settled m) ms p = ground (arith, settled-spent m l)
  emit-spent (at_rest l) (closed c) ms p = unfold end in ground arith
  emit-spent (in_gate r) (landed d i a) ms p = ground (arith, landed_spent r (landed_of r d i a))
  emit-spent (in_gate r) moved ms p = ground (arith, moved_spent r (moved_of r))
  emit-spent (in_gate r) (faulted x) ms p = ground (arith, fault_spent r (fault_of r x))
  emit-spent (ended e) (recovered r) ms p = unfold drain_recover in ground arith
  emit-spent s e ms p = ground arith

  repairs_of-append :
      (ms ns : List Mail) → repairs_of k (ms ++ ns) ≡ repairs_of k ms + repairs_of k ns
  repairs_of-append [] ns = omega arith
  repairs_of-append (mut_requests m ∷ ms) ns = omega (arith, repairs_of-append ms ns)
  repairs_of-append (_ ∷ ms) ns = repairs_of-append ms ns

  refunds-cons :
      (e : EscEvent) (es : List EscEvent) → refunds k (e ∷ es) ≡ refunds k (e ∷ []) + refunds k es
  refunds-cons (settled m) es = ground arith
  refunds-cons _ es = omega arith

  run-spent :
      (es : List EscEvent) (s : EscState) (r : EscState × List Mail)
      → run s es ≡ some r
      → repairs_of k r.1 + spent k s ≤ spent k r.0 + refunds k es
  unfolding run
  run-spent [] s r p = ground arith
  run-spent (e ∷ es) s r p =
      let c = run-cons s e es r p in
      ground (
        arith,
        c.joined,
        emit-spent s e c.tokens c.emitted,
        run-spent es (placed s c.tokens) c.rest c.ran,
        repairs_of-append c.tokens c.rest.1,
        refunds-cons e es,
      )

  spent-le-one : (s : EscState) → spent k s ≤ 1
  spent-le-one (at_rest l) = ground arith
  spent-le-one (in_gate r) = ground arith
  spent-le-one (ended e) = ground arith

  -- From a new ladder every run goes through, and for each rung key it asks the mutation loop for at
  -- most one repair, and one more for each settlement that said that the repair moved.
  pub repair_budget :
      (es : List EscEvent)
      → (r : EscState × List Mail) × (run (at_rest seed) es ≡ some r)
        × (repairs_of k r.1 ≤ 1 + refunds k es)
  repair_budget es =
      let (r, p, h) = ladder_run_total es (at_rest seed) seed-IsSound in
      (r, p, omega (arith, run-spent es (at_rest seed) r p, spent-le-one r.0))
