-- ===== src/Esc/Protocol.antt =====
-- The ladder's baton stands on one of three places: at rest, held in a rerun request, or ended. The
-- rerun gate answers a request with one of three terminals, which echo the request (src/hamsterdan/host/v5/rerun.py).
use hamsterdan.Base.{ℕ, String, Option, none, some, List, [], ◌∷◌, ◌++◌, ◌≡◌, refl, sym}
use hamsterdan.Colors.{
  ChecksFailure, Ladder, MutationSettled, RecoverFact, CloseFact, RerunReq, RerunLanded,
  Disposition, RerunMoved, RerunFault, LadderEnded, Mail, esc_ladder, esc_rerun_req, esc_done,
}
use hamsterdan.Esc.{
  decide, recover, fold_rerun_landed, fold_rerun_moved, fold_rerun_fault, fold_settled, end,
  drain_recover,
}

pub data EscState : Type 0 where
  at_rest : Ladder → EscState
  in_gate : RerunReq → EscState
  ended : LadderEnded → EscState

-- A token of the loop's mailboxes, or an answer of the rerun gate.
pub data EscEvent : Type 0 where
  failed : ChecksFailure → EscEvent
  recovered : RecoverFact → EscEvent
  settled : MutationSettled → EscEvent
  closed : CloseFact → EscEvent
  landed : Disposition → ℕ → ℕ → EscEvent
  moved : EscEvent
  faulted : String → EscEvent

abbrev pub landed_of : RerunReq → Disposition → ℕ → ℕ → RerunLanded
landed_of r disposition cut_run_id cut_attempt = record {
  fingerprint = r.fingerprint;
  op = r.op;
  run_id = r.run_id;
  attempt = r.attempt;
  disposition = disposition;
  cut_run_id = cut_run_id;
  cut_attempt = cut_attempt;
  mem = r.mem;
}

abbrev pub moved_of : RerunReq → RerunMoved
moved_of r = record {
  fingerprint = r.fingerprint;
  fp = r.fp;
  head = r.head;
  base = r.base;
  policy = r.policy;
  incarnation = r.incarnation;
  op = r.op;
  mem = r.mem;
}

abbrev pub fault_of : RerunReq → String → RerunFault
fault_of r reason = record {
  fingerprint = r.fingerprint;
  op = r.op;
  reason = reason;
  fp = r.fp;
  head = r.head;
  base = r.base;
  policy = r.policy;
  incarnation = r.incarnation;
  run_id = r.run_id;
  attempt = r.attempt;
  mem = r.mem;
}

-- where the tokens of a transition put the baton
abbrev pub placed : EscState → List Mail → EscState
placed s [] = s
placed s (esc_ladder l ∷ ms) = at_rest l
placed s (esc_rerun_req r ∷ ms) = in_gate r
placed s (esc_done e ∷ ms) = ended e
placed s (_ ∷ ms) = placed s ms

-- The tokens of the transition that an event enables. An event whose other token is not there
-- waits: nothing is mailed.
unfoldable pub emit : EscState → EscEvent → Option (List Mail)
emit (at_rest l) (failed f) = decide f l
emit (at_rest l) (recovered r) = some (recover r l)
emit (at_rest l) (settled m) = some (fold_settled m l)
emit (at_rest l) (closed c) = some (end c l)
emit (in_gate r) (landed d i a) = some (fold_rerun_landed (landed_of r d i a))
emit (in_gate r) moved = some (fold_rerun_moved (moved_of r))
emit (in_gate r) (faulted reason) = some (fold_rerun_fault (fault_of r reason))
emit (ended e) (recovered r) = some (drain_recover r e)
emit _ _ = some []

-- the state after a run, and all that the run mails
unfoldable pub run : EscState → List EscEvent → Option (EscState × List Mail)
run s [] = some (s, [])
run s (e ∷ es) = elim (emit s e) [
  | none ↦ none
  | some ms ↦ elim (run (placed s ms) es) [ none ↦ none | some r ↦ some (r.0, ms ++ r.1) ]
]

some_inj : {q r : EscState × List Mail} → some q ≡ some r → q ≡ r
some_inj h = cc

none-ne-some : {r : EscState × List Mail} → none ≡ some r → ⊥
none-ne-some h = cc

-- A run that went through, taken apart at its first event.
pub record Split (s : EscState) (e : EscEvent) (es : List EscEvent) (r : EscState × List Mail)
    : Type 0 where
  pub tokens : List Mail
  pub rest : EscState × List Mail
  pub emitted : emit s e ≡ some tokens
  pub ran : run (placed s tokens) es ≡ some rest
  pub joined : r ≡ (rest.0, tokens ++ rest.1)

pub run-cons :
    (s : EscState) (e : EscEvent) (es : List EscEvent) (r : EscState × List Mail)
    → run s (e ∷ es) ≡ some r
    → Split s e es r
unfolding run
run-cons s e es r p = split (emit s e) refl
  where
    split : (o : Option (List Mail)) → emit s e ≡ o → Split s e es r
    split none q = absurd (none-ne-some (rw (q, run) at p))
    split (some ms) q = rest (run (placed s ms) es) refl
      where
        rest : (o : Option (EscState × List Mail)) → run (placed s ms) es ≡ o → Split s e es r
        rest none q' = absurd (none-ne-some (rw q' at (rw (q, run) at p)))
        rest (some t) q' = record {
          tokens = ms;
          rest = t;
          emitted = q;
          ran = q';
          joined = sym (some_inj (rw q' at (rw (q, run) at p)));
        }

-- the state that a run reaches
abbrev pub reached : Option (EscState × List Mail) → Option EscState
reached none = none
reached (some r) = some r.0
