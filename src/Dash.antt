-- ===== src/Dash.antt =====
-- The dashboard loop (src/hamsterdan/readiness/net_v5/dashboard.py): a board of all facts, published
-- when the newest fact drifts. `repr` of a fact's body and of its sorted items are parameters.
pub mod Protocol
pub mod Projection
pub mod Pokes
pub mod Board
pub mod Wiring
mod Examples
use hamsterdan.Base.{
  String, Bool, true, false, not, ◌&&◌, ◌||◌, Option, none, some, List, [], ◌∷◌, ◌++◌, ◌==◌,
  is_some, if◌then◌else◌, ◌⧺◌,
}
use hamsterdan.Colors.{
  DashFact, state, checks, human, mutation_pending, mutation_settled, fault_raised, fault_cleared,
  human_needed, announced, announce_fault, reminder, reminder_fault, review_status, review_findings,
  DashHeld, DashMemory, DashReq, DashLanded, DashDeferred, DashBlocked, DashFault, DashHeal,
  DashEnded, CloseFact, RecoverFact, Mail, dash_memory, dash_pub_req, dash_heal, dash_done,
  startup_published,
}

-- the `kind` of a fact
abbrev pub kind_of : DashFact → String
kind_of (state f) = "state"
kind_of (checks f) = "checks"
kind_of (human f) = "human"
kind_of (mutation_pending f) = "mutation_pending"
kind_of (mutation_settled f) = "mutation_settled"
kind_of (human_needed i fp op r) = "human_needed"
kind_of (announced i head) = "announced"
kind_of (reminder id) = "reminder"
kind_of (review_status f) = "review"
kind_of (review_findings f) = "findings"
kind_of _ = "fault"

-- Python's `repr` of the sorted items of a body, and of the body
pub record Repr : Type 0 where
  pub items : DashFact → String
  pub body : DashFact → String

-- `_digest`
abbrev pub digest : Repr → DashFact → String
digest repr f = kind_of f ⧺ ":" ⧺ repr.items f

-- the entry of a fact
abbrev pub entry : Repr → DashFact → String
entry repr f = kind_of f ⧺ ":" ⧺ repr.body f

-- `_live_req`
abbrev pub live_req : List String → String → DashMemory → DashReq
live_req entries d mem = record {
  entries = entries;
  digest = d;
  desired_entries = entries;
  desired_digest = d;
  landed = mem.landed;
  blocked = mem.blocked;
  faulted = mem.faulted;
}

-- a blocked or faulted request is held
abbrev pub is_held : DashMemory → Bool
is_held mem = is_some mem.blocked || is_some mem.faulted

-- `_fold`
unfoldable pub fold : Repr → DashFact → DashMemory → List Mail
fold repr f mem =
    if digest repr f == mem.digest
    then dash_memory mem ∷ []
    else let entries = mem.entries ++ entry repr f ∷ [] in
      if is_held mem
      then dash_memory (record mem { entries = entries; digest = digest repr f }) ∷ []
      else dash_pub_req (live_req entries (digest repr f) mem) ∷ []

-- list equality
abbrev pub entries_eq : List String → List String → Bool
entries_eq [] [] = true
entries_eq (x ∷ xs) (y ∷ ys) = x == y && entries_eq xs ys
entries_eq _ _ = false

-- `_fold_landed`
unfoldable pub fold_landed : DashLanded → List Mail
fold_landed out =
    dash_memory (record {
      entries = out.desired_entries;
      digest = out.desired_digest;
      landed = out.digest;
      blocked = none;
      faulted = none;
    })
    ∷ startup_published (record { digest = out.digest })
    ∷ (if not (out.desired_digest == out.digest) || not (entries_eq out.desired_entries out.entries)
        then dash_heal (record { entries = out.desired_entries; digest = out.desired_digest }) ∷ []
        else [])

-- `_fold_deferred`
unfoldable pub fold_deferred : DashDeferred → List Mail
fold_deferred out =
    dash_memory (record {
      entries = out.desired_entries;
      digest = out.desired_digest;
      landed = out.landed;
      blocked = out.blocked;
      faulted = out.faulted;
    })
    ∷ []

-- `_selfheal`
unfoldable pub selfheal : DashHeal → DashMemory → List Mail
selfheal heal mem =
    if is_held mem || not (entries_eq mem.entries heal.entries) || not (mem.digest == heal.digest)
    then dash_memory mem ∷ []
    else dash_pub_req (live_req mem.entries mem.digest mem) ∷ []

-- `_fold_blocked`
unfoldable pub fold_blocked : DashBlocked → List Mail
fold_blocked out =
    dash_memory (record {
      entries = out.desired_entries;
      digest = out.desired_digest;
      landed = "";
      blocked = some (record { entries = out.entries; digest = out.digest; reason = "" });
      faulted = none;
    })
    ∷ []

-- `_fold_fault`
unfoldable pub fold_fault : DashFault → List Mail
fold_fault out =
    dash_memory (record {
      entries = out.desired_entries;
      digest = out.desired_digest;
      landed = "";
      blocked = none;
      faulted = some (record { entries = out.entries; digest = out.digest; reason = out.reason });
    })
    ∷ []

-- `mem.blocked or mem.faulted`
abbrev pub held_of : DashMemory → Option DashHeld
held_of mem = elim mem.blocked [ some h ↦ some h | none ↦ mem.faulted ]

-- the retained request, with the desired state beside it
abbrev pub reissue : DashHeld → DashMemory → DashReq
reissue held mem = record (live_req mem.entries mem.digest mem) {
  entries = held.entries;
  digest = held.digest;
}

-- `_recover`, for what is held
abbrev pub recover_held : Option DashHeld → RecoverFact → DashMemory → List Mail
recover_held none fact mem = dash_memory mem ∷ []
recover_held (some held) fact mem =
    if not (fact.target == "dashboard") || not (fact.op == ("dash:" ⧺ held.digest))
    then dash_memory mem ∷ []
    else dash_pub_req (reissue held mem) ∷ []

-- `_recover`
unfoldable pub recover : RecoverFact → DashMemory → List Mail
recover fact mem = recover_held (held_of mem) fact mem

-- `_end`
unfoldable pub end : CloseFact → DashMemory → List Mail
end close mem = dash_done (record { entries = mem.entries; reason = close.reason }) ∷ []

-- `_drain_fact`
unfoldable pub drain_fact : Repr → DashFact → DashEnded → List Mail
drain_fact repr f ended =
    dash_done (record ended { entries = ended.entries ++ entry repr f ∷ [] }) ∷ []

-- `_drain_recover`
unfoldable pub drain_recover : RecoverFact → DashEnded → List Mail
drain_recover fact ended = dash_done ended ∷ []

-- `_drain_heal`
unfoldable pub drain_heal : DashHeal → DashEnded → List Mail
drain_heal heal ended = dash_done ended ∷ []

-- `seed`
abbrev pub seed : DashMemory
seed = record { entries = []; digest = ""; landed = ""; blocked = none; faulted = none }
