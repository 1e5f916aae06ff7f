-- ===== src/Mut/Custody.antt =====
-- A faulted push is retained whole, and blocks every other one.
use hamsterdan.Base.{String, List, [], ◌∷◌, ◌≡◌, arith, eq_iff}
use mathlib.Core.Path.{subst}
use hamsterdan.Colors.{
  faulted as faulted_phase, MutState, MutationRequest, MutationSettled, Outcome, MutWork, Mail,
  mut_work, esc_settled, ready_mutation_settled_facts,
}
use hamsterdan.Mut.{idle_state, lineage, recovered_work, op_key, budget_key}
use hamsterdan.Mut.Protocol.{
  MutPlace, at_rest, in_flight, ended, MutEvent, requested, recovered, faulted, placed, emit, final,
}

-- a work's lineage is that of its operation
abbrev pub IsDerived : MutPlace → Type 0
IsDerived (in_flight w) = w.lineage ≡ lineage w.op
IsDerived _ = Unit

emit-IsDerived : (s : MutPlace) (e : MutEvent) → IsDerived s → IsDerived (placed s (emit s e))
unfolding emit
emit-IsDerived (at_rest st) e h = ground arith
emit-IsDerived (in_flight w) e h = ground arith
emit-IsDerived (ended x) e h = ground arith

run-IsDerived : (s : MutPlace) (es : List MutEvent) → IsDerived s → IsDerived (final s es)
unfolding final
run-IsDerived s [] h = h
run-IsDerived s (e ∷ es) h = run-IsDerived (placed s (emit s e)) es (emit-IsDerived s e h)

-- In any run from a new workflow: a work in flight that faults and is then recovered by its identity
-- is in flight again, the same work in every field.
pub work_fault-recover :
    (es : List MutEvent) (w : MutWork) (reason : String)
    → final (at_rest idle_state) es ≡ in_flight w
    → final
        (in_flight w)
        (faulted reason ∷ recovered (record { target = "mutation"; op = w.op_key }) ∷ [])
      ≡ in_flight w
unfolding final emit
work_fault-recover es w reason p =
    let derived : w.lineage ≡ lineage w.op =
      subst IsDerived p (run-IsDerived (at_rest idle_state) es tt) in
    ground (arith, derived, eq_iff w.op_key w.op_key)

-- a token that opens a round only for the exact recovery of `st`
abbrev pub ReopensOnly : MutState → MutEvent → Mail → Type 0
ReopensOnly st (recovered r) (mut_work w) =
    (r.target ≡ "mutation") × (r.op ≡ st.op_key) × (w ≡ recovered_work st)
ReopensOnly st _ (mut_work w) = ⊥
ReopensOnly st _ _ = Unit

-- the settlements that are mailed to escalation, and those that are reported to readiness
unfoldable pub settled_by : List Mail → List MutationSettled
settled_by [] = []
settled_by (esc_settled m ∷ ms) = m ∷ settled_by ms
settled_by (_ ∷ ms) = settled_by ms

unfoldable pub reported_by : List Mail → List MutationSettled
reported_by [] = []
reported_by (ready_mutation_settled_facts f ∷ ms) = f.body ∷ reported_by ms
reported_by (_ ∷ ms) = reported_by ms

-- what a request declined is settled as
abbrev pub refusal_of : MutationRequest → MutationSettled
refusal_of q = record {
  op = q.op;
  op_key = op_key q;
  outcome = Outcome.declined;
  incarnation = q.incarnation;
  fingerprint = budget_key q.op;
}

-- a request leaves the baton as it is, and is settled once, as declined, with escalation and with
-- readiness
unfoldable pub Declines : MutState → MutEvent → List Mail → Type 0
unfolding settled_by reported_by
Declines st (requested q) ms =
    (placed (at_rest st) ms ≡ at_rest st)
    × (settled_by ms ≡ refusal_of q ∷ [])
    × (reported_by ms ≡ refusal_of q ∷ [])
Declines st _ ms = Unit
