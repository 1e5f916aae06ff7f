-- ===== src/Dash/Projection.antt =====
-- The projection that the dashboard keeps refines a log of drifts.
use hamsterdan.Base.{
  ℕ, String, Option, none, some, List, [], ◌∷◌, ◌++◌, ◌==◌, ◌≡◌, refl, sym, ap, ◌∙◌, arith,
  if◌then◌else◌,
}
use hamsterdan.Colors.{DashFact, DashHeal, DashHeld, DashMemory, RecoverFact}
use hamsterdan.Dash.{
  Repr, digest, entry, held_of, fold, fold_landed, fold_deferred, selfheal, fold_blocked,
  fold_fault, recover, recover_held, end, drain_fact, drain_recover, drain_heal,
}
use hamsterdan.Dash.Protocol.{
  DashPlace, at_rest, in_flight, ended, DashState, DashEvent, observed, landed, deferred, blocked,
  faulted, recovered, healed, closed, placed, pull, fire, fire_heal, step, final,
}

-- What the board promises: a log, and the digest of its last entry while it is live.
pub data Log : Type 0 where
  live : List String → String → Log
  frozen : List String → Log

pub data Input : Type 0 where
  noted : DashFact → Input
  shut : Input

-- A live log takes a fact if its digest drifts from the last one; a frozen log takes each.
abbrev pub take_input : Repr → Input → Log → Log
take_input repr (noted f) (live log last) =
    if digest repr f == last then live log last else live (log ++ entry repr f ∷ []) (digest repr f)
take_input repr (noted f) (frozen log) = frozen (log ++ entry repr f ∷ [])
take_input repr shut (live log last) = frozen log
take_input repr shut (frozen log) = frozen log

abbrev pub take_inputs : Repr → List Input → Log → Log
take_inputs repr [] l = l
take_inputs repr (i ∷ is) l = take_inputs repr is (take_input repr i l)

-- what the baton desires to show, wherever it is
abbrev pub log_of : DashPlace → Log
log_of (at_rest m) = live m.entries m.digest
log_of (in_flight q) = live q.desired_entries q.desired_digest
log_of (ended e) = frozen e.entries

-- the input that an event of the loop is; a fact waits while an upsert is in flight
abbrev pub input_of : DashPlace → DashEvent → List Input
input_of (at_rest m) (observed f) = noted f ∷ []
input_of (ended e) (observed f) = noted f ∷ []
input_of (at_rest m) (closed c) = shut ∷ []
input_of _ _ = []

abbrev pub inputs : Repr → DashState → List DashEvent → List Input
inputs repr s [] = []
inputs repr s (e ∷ es) = input_of s.place e ++ inputs repr (step repr e s) es

fold_log :
    (repr : Repr) (f : DashFact) (m : DashMemory) (p : DashPlace)
    → log_of (placed p (fold repr f m)) ≡ take_input repr (noted f) (live m.entries m.digest)
unfolding fold
fold_log repr f m p = ground arith

recover_log :
    (h : Option DashHeld) (r : RecoverFact) (m : DashMemory) (p : DashPlace)
    → log_of (placed p (recover_held h r m)) ≡ live m.entries m.digest
recover_log none r m p = refl
recover_log (some h) r m p = ground arith

heal_log :
    (h : DashHeal) (m : DashMemory) (p : DashPlace)
    → log_of (placed p (selfheal h m)) ≡ live m.entries m.digest
unfolding selfheal
heal_log h m p = ground arith

fire_log :
    (repr : Repr) (p : DashPlace) (e : DashEvent) (s : DashState)
    → s.place ≡ p
    → log_of (fire repr p e s).place ≡ take_inputs repr (input_of p e) (log_of p)
unfolding fire fold_landed fold_deferred fold_blocked fold_fault recover end drain_fact
    drain_recover
fire_log repr (at_rest m) (observed f) s q = fold_log repr f m s.place
fire_log repr (at_rest m) (recovered r) s q = recover_log (held_of m) r m s.place
fire_log repr (at_rest m) (closed c) s q = refl
fire_log repr (at_rest m) landed s q = ap log_of q
fire_log repr (at_rest m) deferred s q = ap log_of q
fire_log repr (at_rest m) blocked s q = ap log_of q
fire_log repr (at_rest m) (faulted x) s q = ap log_of q
fire_log repr (at_rest m) (healed n) s q = ap log_of q
fire_log repr (in_flight r) landed s q = refl
fire_log repr (in_flight r) deferred s q = refl
fire_log repr (in_flight r) blocked s q = refl
fire_log repr (in_flight r) (faulted x) s q = refl
fire_log repr (in_flight r) (observed f) s q = ap log_of q
fire_log repr (in_flight r) (recovered f) s q = ap log_of q
fire_log repr (in_flight r) (closed c) s q = ap log_of q
fire_log repr (in_flight r) (healed n) s q = ap log_of q
fire_log repr (ended x) (observed f) s q = refl
fire_log repr (ended x) (recovered r) s q = refl
fire_log repr (ended x) landed s q = ap log_of q
fire_log repr (ended x) deferred s q = ap log_of q
fire_log repr (ended x) blocked s q = ap log_of q
fire_log repr (ended x) (faulted y) s q = ap log_of q
fire_log repr (ended x) (closed c) s q = ap log_of q
fire_log repr (ended x) (healed n) s q = ap log_of q

fire_heal_log :
    (p : DashPlace) (h : Option (DashHeal × List DashHeal)) (s : DashState)
    → s.place ≡ p
    → log_of (fire_heal p h s).place ≡ log_of p
unfolding fire_heal drain_heal
fire_heal_log (at_rest m) (some h) s q = heal_log h.0 m s.place
fire_heal_log (ended e) (some h) s q = refl
fire_heal_log (in_flight r) (some h) s q = ap log_of q
fire_heal_log (at_rest m) none s q = ap log_of q
fire_heal_log (ended e) none s q = ap log_of q
fire_heal_log (in_flight r) none s q = ap log_of q

no_input : (p : DashPlace) (n : ℕ) → input_of p (healed n) ≡ []
no_input (at_rest m) n = refl
no_input (in_flight q) n = refl
no_input (ended e) n = refl

step_log :
    (repr : Repr) (e : DashEvent) (s : DashState)
    → log_of (step repr e s).place ≡ take_inputs repr (input_of s.place e) (log_of s.place)
unfolding step
step_log repr (healed n) s =
    fire_heal_log s.place (pull n s.pokes) s refl
    ∙ ap (λ is. take_inputs repr is (log_of s.place)) (sym (no_input s.place n))
step_log repr (observed f) s = fire_log repr s.place (observed f) s refl
step_log repr landed s = fire_log repr s.place landed s refl
step_log repr deferred s = fire_log repr s.place deferred s refl
step_log repr blocked s = fire_log repr s.place blocked s refl
step_log repr (faulted x) s = fire_log repr s.place (faulted x) s refl
step_log repr (recovered r) s = fire_log repr s.place (recovered r) s refl
step_log repr (closed c) s = fire_log repr s.place (closed c) s refl

take_inputs-append :
    (repr : Repr) (is js : List Input) (l : Log)
    → take_inputs repr (is ++ js) l ≡ take_inputs repr js (take_inputs repr is l)
take_inputs-append repr [] js l = refl
take_inputs-append repr (i ∷ is) js l = take_inputs-append repr is js (take_input repr i l)

-- The dashboard loop refines its log: after any events in any order (facts, terminals of the upsert,
-- recoveries, pokes to heal and close), what the loop desires to show, at rest or in flight, is the log
-- of the facts that it took, and after close its record is the frozen log with each late fact.
-- A fact enters a live log if its digest differs from the last one's; no fault or recovery loses one.
pub dashboard_refines :
    (repr : Repr) (s : DashState) (es : List DashEvent)
    → log_of (final repr s es).place ≡ take_inputs repr (inputs repr s es) (log_of s.place)
unfolding final
dashboard_refines repr s [] = refl
dashboard_refines repr s (e ∷ es) =
    dashboard_refines repr (step repr e s) es
    ∙ ap (take_inputs repr (inputs repr (step repr e s) es)) (step_log repr e s)
    ∙ sym (
        take_inputs-append repr (input_of s.place e) (inputs repr (step repr e s) es)
          (log_of s.place))
