-- ===== src/Dash/Protocol.antt =====
-- Runs of the dashboard loop. The baton rests, is in flight as the upsert's request, or has ended;
-- pokes to heal wait beside it. The upsert is the gate's: the board shows what it landed.
use hamsterdan.Base.{String, List, [], ◌∷◌, ◌++◌, Option, none, some, ℕ, zero, suc}
use hamsterdan.Colors.{
  DashFact, DashMemory, DashReq, DashLanded, DashDeferred, DashBlocked, DashFault, DashHeal,
  DashEnded, CloseFact, RecoverFact, Mail, dash_memory, dash_pub_req, dash_heal, dash_done,
}
use hamsterdan.Dash.{
  Repr, fold, fold_landed, fold_deferred, selfheal, fold_blocked, fold_fault, recover, end,
  drain_fact, drain_recover, drain_heal,
}

pub data DashPlace : Type 0 where
  at_rest : DashMemory → DashPlace
  in_flight : DashReq → DashPlace
  ended : DashEnded → DashPlace

-- the board: the entries and the digest that it shows
pub record DashState : Type 0 where
  pub place : DashPlace
  pub pokes : List DashHeal
  pub shown : List String × String

-- `healed n` binds the n-th poke
pub data DashEvent : Type 0 where
  observed : DashFact → DashEvent
  landed : DashEvent
  deferred : DashEvent
  blocked : DashEvent
  faulted : String → DashEvent
  recovered : RecoverFact → DashEvent
  healed : ℕ → DashEvent
  closed : CloseFact → DashEvent

abbrev pub landed_of : DashReq → DashLanded
landed_of q = record {
  entries = q.entries;
  digest = q.digest;
  desired_entries = q.desired_entries;
  desired_digest = q.desired_digest;
}

abbrev pub deferred_of : DashReq → DashDeferred
deferred_of q = record {
  entries = q.entries;
  digest = q.digest;
  desired_entries = q.desired_entries;
  desired_digest = q.desired_digest;
  landed = q.landed;
  blocked = q.blocked;
  faulted = q.faulted;
}

abbrev pub blocked_of : DashReq → DashBlocked
blocked_of q = record {
  entries = q.entries;
  digest = q.digest;
  desired_entries = q.desired_entries;
  desired_digest = q.desired_digest;
}

abbrev pub fault_of : DashReq → String → DashFault
fault_of q reason = record {
  entries = q.entries;
  digest = q.digest;
  desired_entries = q.desired_entries;
  desired_digest = q.desired_digest;
  reason = reason;
}

-- where the tokens of a transition put the baton
abbrev pub placed : DashPlace → List Mail → DashPlace
placed p [] = p
placed p (dash_memory m ∷ ms) = at_rest m
placed p (dash_pub_req q ∷ ms) = in_flight q
placed p (dash_done e ∷ ms) = ended e
placed p (_ ∷ ms) = placed p ms

-- the pokes among the tokens
abbrev pub poked : List Mail → List DashHeal
poked [] = []
poked (dash_heal h ∷ ms) = h ∷ poked ms
poked (_ ∷ ms) = poked ms

-- the tokens that are mailed change the state
abbrev pub put_mail : DashState → List Mail → DashState
put_mail s ms = record s { place = placed s.place ms; pokes = s.pokes ++ poked ms }

-- The transition that an event enables; an event whose other token is not there waits.
unfoldable pub fire : Repr → DashPlace → DashEvent → DashState → DashState
unfolding fold fold_landed fold_deferred fold_blocked fold_fault recover end drain_fact
    drain_recover
fire repr (at_rest m) (observed f) s = put_mail s (fold repr f m)
fire repr (at_rest m) (recovered r) s = put_mail s (recover r m)
fire repr (at_rest m) (closed c) s = put_mail s (end c m)
fire repr (in_flight q) landed s =
    put_mail (record s { shown = (q.entries, q.digest) }) (fold_landed (landed_of q))
fire repr (in_flight q) deferred s = put_mail s (fold_deferred (deferred_of q))
fire repr (in_flight q) blocked s = put_mail s (fold_blocked (blocked_of q))
fire repr (in_flight q) (faulted reason) s = put_mail s (fold_fault (fault_of q reason))
fire repr (ended e) (observed f) s = put_mail s (drain_fact repr f e)
fire repr (ended e) (recovered r) s = put_mail s (drain_recover r e)
fire repr _ _ s = s

-- the n-th poke, and the others
abbrev pub pull : ℕ → List DashHeal → Option (DashHeal × List DashHeal)
pull n [] = none
pull zero (h ∷ hs) = some (h, hs)
pull (suc n) (h ∷ hs) = elim (pull n hs) [ none ↦ none | some p ↦ some (p.0, h ∷ p.1) ]

-- A poke is taken with the baton, if it rests or has ended.
unfoldable pub fire_heal : DashPlace → Option (DashHeal × List DashHeal) → DashState → DashState
unfolding selfheal drain_heal
fire_heal (at_rest m) (some p) s = put_mail (record s { pokes = p.1 }) (selfheal p.0 m)
fire_heal (ended e) (some p) s = put_mail (record s { pokes = p.1 }) (drain_heal p.0 e)
fire_heal _ _ s = s

unfoldable pub step : Repr → DashEvent → DashState → DashState
unfolding fire fire_heal
step repr (healed n) s = fire_heal s.place (pull n s.pokes) s
step repr e s = fire repr s.place e s

-- the state after a run
unfoldable pub final : Repr → DashState → List DashEvent → DashState
unfolding step
final repr s [] = s
final repr s (e ∷ es) = final repr (step repr e s) es
