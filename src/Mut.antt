-- ===== src/Mut.antt =====
-- src/hamsterdan/readiness/net_v5/mutation.py: every write to the branch goes through one baton.
pub mod Wiring
mod Examples
pub mod Protocol
pub mod Ledger
pub mod Custody
pub mod Lineage
use hamsterdan.Base.{
  ℕ, String, Bool, true, false, not, ◌||◌, Option, none, some, List, [], ◌∷◌, ◌==◌, if◌then◌else◌,
  ◌⧺◌, decimal, strip, before_colon,
}
use hamsterdan.Colors.{
  MutPhase, idle, faulted, MutState, MutationRequest, Outcome, MutationSettled, MutationSettledFact,
  MutationPendingFact, FaultRaisedFact, FaultClearedFact, ClearedStatus, Owner, ProvisionalHead,
  RecoverFact, CloseFact, MutWork, Pushed, MovedM, FaultM, DeclinedM, MutEnded, mutation_pending,
  mutation_settled, fault_raised, fault_cleared, Mail, mut_state, mut_work, mut_done, esc_settled,
  life_provisional, dash_facts, ready_mutation_pending_facts, ready_mutation_settled_facts,
  ready_fault_raised_facts, ready_fault_cleared_facts,
}

-- `_IDLE`, the baton of `seed`
abbrev pub idle_state : MutState
idle_state = record {
  state = idle;
  op_key = "";
  op = "";
  head = "";
  base = "";
  policy = "";
  incarnation = 0;
  reason = "";
  kind = "";
  instruction = "";
  run_id = 0;
  attempt = 0;
}

abbrev pub is_faulted : MutPhase → Bool
is_faulted idle = false
is_faulted faulted = true

-- `_budget_key`
unfoldable pub budget_key : String → String
budget_key op = elim (strip "repair:" op) [ none ↦ "" | some key ↦ key ]

-- `_lineage`
unfoldable pub lineage : String → String
lineage op = let key = budget_key op in if key == "" then "" else before_colon key

-- `_op_key`
unfoldable pub op_key : MutationRequest → String
op_key req = "push:" ⧺ req.rid ⧺ ":" ⧺ req.head ⧺ ":i" ⧺ decimal req.incarnation

-- `_settled`
abbrev pub settled : String → String → Outcome → ℕ → MutationSettled
settled op key outcome incarnation = record {
  op = op;
  op_key = key;
  outcome = outcome;
  incarnation = incarnation;
  fingerprint = budget_key op;
}

-- `_settled_fact`
abbrev pub settled_fact : MutationSettled → MutationSettledFact
settled_fact m = record { incarnation = m.incarnation; body = m }

-- what a settlement mails: to escalation, readiness and the dashboard
abbrev pub settle_mail : MutationSettled → List Mail
settle_mail m =
    esc_settled m
    ∷ ready_mutation_settled_facts (settled_fact m)
    ∷ dash_facts (mutation_settled (settled_fact m))
    ∷ []

abbrev pub work_of : MutationRequest → MutWork
work_of req = record {
  op = req.op;
  op_key = op_key req;
  head = req.head;
  base = req.base;
  policy = req.policy;
  incarnation = req.incarnation;
  lineage = lineage req.op;
  kind = req.kind;
  instruction = req.instruction;
  run_id = req.run_id;
  attempt = req.attempt;
}

-- `_start`
unfoldable pub start : MutationRequest → MutState → List Mail
start req st =
    if is_faulted st.state
    then mut_state st ∷ settle_mail (settled req.op (op_key req) Outcome.declined req.incarnation)
    else let fact : MutationPendingFact = record {
      incarnation = req.incarnation;
      op = req.op;
      op_key = op_key req;
    } in
      mut_work (work_of req)
      ∷ ready_mutation_pending_facts fact
      ∷ dash_facts (mutation_pending fact)
      ∷ []

-- `_fold_pushed`
unfoldable pub fold_pushed : Pushed → List Mail
fold_pushed out =
    mut_state idle_state
    ∷ life_provisional (record {
      expected = out.new_head;
      from_head = out.head;
      op = out.op;
      lineage = out.lineage;
    })
    ∷ settle_mail (settled out.op out.op_key Outcome.landed out.incarnation)

-- `_fold_moved`
unfoldable pub fold_moved : MovedM → List Mail
fold_moved out =
    mut_state idle_state ∷ settle_mail (settled out.op out.op_key Outcome.moved out.incarnation)

-- `_fold_declined`
unfoldable pub fold_declined : DeclinedM → List Mail
fold_declined out =
    mut_state idle_state ∷ settle_mail (settled out.op out.op_key Outcome.declined out.incarnation)

-- the baton that retains a faulted round
abbrev pub faulted_state : FaultM → MutState
faulted_state out = record {
  state = faulted;
  op_key = out.op_key;
  op = out.op;
  head = out.head;
  base = out.base;
  policy = out.policy;
  incarnation = out.incarnation;
  reason = out.reason;
  kind = out.kind;
  instruction = out.instruction;
  run_id = out.run_id;
  attempt = out.attempt;
}

-- `_fold_fault`
unfoldable pub fold_fault : FaultM → List Mail
fold_fault out =
    let fact : FaultRaisedFact = record {
      owner = Owner.mutation;
      op = out.op_key;
      reason = out.reason;
    } in
    mut_state (faulted_state out)
    ∷ esc_settled (settled out.op out.op_key Outcome.faulted out.incarnation)
    ∷ ready_fault_raised_facts fact
    ∷ dash_facts (fault_raised fact)
    ∷ []

-- the work that a recovery reissues
abbrev pub recovered_work : MutState → MutWork
recovered_work st = record {
  op = st.op;
  op_key = st.op_key;
  head = st.head;
  base = st.base;
  policy = st.policy;
  incarnation = st.incarnation;
  lineage = lineage st.op;
  kind = st.kind;
  instruction = st.instruction;
  run_id = st.run_id;
  attempt = st.attempt;
}

-- `_recover`
unfoldable pub recover : RecoverFact → MutState → List Mail
recover fact st =
    if not (fact.target == "mutation") || not (is_faulted st.state) || not (fact.op == st.op_key)
    then mut_state st ∷ []
    else let pending : MutationPendingFact = record {
      incarnation = st.incarnation;
      op = st.op;
      op_key = st.op_key;
    } in
      let resolved : FaultClearedFact = record {
        owner = Owner.mutation;
        op = st.op_key;
        status = ClearedStatus.resolved;
      } in
      mut_work (recovered_work st)
      ∷ ready_mutation_pending_facts pending
      ∷ ready_fault_cleared_facts resolved
      ∷ dash_facts (mutation_pending pending)
      ∷ dash_facts (fault_cleared resolved)
      ∷ []

-- `_end`
unfoldable pub end : CloseFact → MutState → List Mail
end close st = mut_done (record { state = st.state; reason = close.reason }) ∷ []

-- `_drain_recover`
unfoldable pub drain_recover : RecoverFact → MutEnded → List Mail
drain_recover fact ended = mut_done ended ∷ []

-- `_drain`
unfoldable pub drain : MutationRequest → MutEnded → List Mail
drain req ended =
    mut_done ended ∷ settle_mail (settled req.op (op_key req) Outcome.declined req.incarnation)
