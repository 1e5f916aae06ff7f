-- ===== src/Colors/Batons.antt =====
-- The batons: one private memory value for each loop (contracts/readiness_v5.py).
use hamsterdan.Base.{ℕ, String, Bool, Option, List, Dict}
use hamsterdan.Colors.Ingress.{Phase, ChecksStatus, ReviewStatus}

pub record LifeState : Type 0 where
  pub phase : Phase
  pub incarnation : ℕ
  pub head : String
  pub base : String
  pub mergeable : Bool
  pub policy : String
  pub expected : String
  pub expected_op : String
  pub lineage : String
  pub reminder_delay_s : ℕ
  pub strict_base : Bool
  pub base_current : Bool

-- `best` is the tuple `(run_id, attempt)` of the winning run, `none` for the empty tuple.
pub record CiState : Type 0 where
  pub head : String
  pub base : String
  pub policy : String
  pub lineage : String
  pub incarnation : ℕ
  pub best : Option (ℕ × ℕ)
  pub status : ChecksStatus
  pub fingerprint : String
  pub parked : List String

-- CI -> escalation: the newest run failed under this authority claim.
pub record ChecksFailure : Type 0 where
  pub fingerprint : String
  pub head : String
  pub base : String
  pub policy : String
  pub lineage : String
  pub incarnation : ℕ
  pub run_id : ℕ
  pub attempt : ℕ

-- `{"state": "done", "run_id", "attempt"}` or `{"state": "fault"}`
pub data Rung : Type 0 where
  done : ℕ → ℕ → Rung
  fault : Rung

pub data RepairState : Type 0 where
  pending done declined fault : RepairState

-- a value of `Ladder.repairs`
pub record RepairEntry : Type 0 where
  pub state : RepairState
  pub fp : String
  pub head : String
  pub base : String
  pub policy : String
  pub incarnation : ℕ
  pub run_id : ℕ
  pub attempt : ℕ

-- a value of `Ladder.rerun_faults`
pub record FaultEntry : Type 0 where
  pub op : String
  pub reason : String
  pub fp : String
  pub head : String
  pub base : String
  pub policy : String
  pub incarnation : ℕ
  pub run_id : ℕ
  pub attempt : ℕ
  pub blocked : Option ChecksFailure

pub record Ladder : Type 0 where
  pub reruns : Dict Rung
  pub repairs : Dict RepairEntry
  pub rerun_faults : Dict FaultEntry
  pub closing : Option String

pub data MutPhase : Type 0 where
  idle faulted : MutPhase

pub record MutState : Type 0 where
  pub state : MutPhase
  pub op_key : String
  pub op : String
  pub head : String
  pub base : String
  pub policy : String
  pub incarnation : ℕ
  pub reason : String
  pub kind : String
  pub instruction : String
  pub run_id : ℕ
  pub attempt : ℕ

-- One readiness announcement for the announce gate.
pub record AnnounceReq : Type 0 where
  pub op : String
  pub incarnation : ℕ
  pub head : String
  pub base : String
  pub policy : String
  pub strict_base : Bool
  pub base_current : Bool

-- `phase` is `none` for the empty text of the seed; `announcing` and `blocked` are `none` for `{}`.
pub record Snapshot : Type 0 where
  pub incarnation : ℕ
  pub phase : Option Phase
  pub head : String
  pub base : String
  pub policy : String
  pub mergeable : Bool
  pub checks : ChecksStatus
  pub review : ReviewStatus
  pub findings_blocking : ℕ
  pub approval : Bool
  pub changes_requested : Bool
  pub unresolved : ℕ
  pub pending : List String
  pub faults : Dict String
  pub announced : List ℕ
  pub candidate : Bool
  pub announcing : Option AnnounceReq
  pub blocked : Option AnnounceReq
  pub strict_base : Bool
  pub base_current : Bool
  pub closing : Option String
