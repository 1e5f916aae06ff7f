-- ===== src/Colors/Gates.antt =====
-- Gate work tokens, typed terminals and terminal records (contracts/readiness_v5.py).
use hamsterdan.Base.{ℕ, String, Bool, Option, List, Dict}
use hamsterdan.Colors.Ingress.{Phase, ChecksStatus}
use hamsterdan.Colors.Batons.{Ladder, Rung, RepairEntry, MutPhase}

-- `mem` is the ladder baton, held through the round
pub record RerunReq : Type 0 where
  pub fingerprint : String
  pub fp : String
  pub op : String
  pub head : String
  pub base : String
  pub policy : String
  pub incarnation : ℕ
  pub run_id : ℕ
  pub attempt : ℕ
  pub mem : Ladder

pub data Disposition : Type 0 where
  requested existing : Disposition

pub record RerunLanded : Type 0 where
  pub fingerprint : String
  pub op : String
  pub run_id : ℕ
  pub attempt : ℕ
  pub disposition : Disposition
  pub cut_run_id : ℕ
  pub cut_attempt : ℕ
  pub mem : Ladder

pub record RerunMoved : Type 0 where
  pub fingerprint : String
  pub fp : String
  pub head : String
  pub base : String
  pub policy : String
  pub incarnation : ℕ
  pub op : String
  pub mem : Ladder

pub record RerunFault : Type 0 where
  pub fingerprint : String
  pub op : String
  pub reason : String
  pub fp : String
  pub head : String
  pub base : String
  pub policy : String
  pub incarnation : ℕ
  pub run_id : ℕ
  pub attempt : ℕ
  pub mem : Ladder

pub record LadderEnded : Type 0 where
  pub reruns : Dict Rung
  pub repairs : Dict RepairEntry
  pub reason : String

pub record CiEnded : Type 0 where
  pub status : ChecksStatus
  pub reason : String

pub record MutWork : Type 0 where
  pub op : String
  pub op_key : String
  pub head : String
  pub base : String
  pub policy : String
  pub incarnation : ℕ
  pub lineage : String
  pub kind : String
  pub instruction : String
  pub run_id : ℕ
  pub attempt : ℕ

pub record Pushed : Type 0 where
  pub op : String
  pub op_key : String
  pub head : String
  pub new_head : String
  pub incarnation : ℕ
  pub lineage : String

pub record MovedM : Type 0 where
  pub op : String
  pub op_key : String
  pub head : String
  pub incarnation : ℕ
  pub observed : String
  pub observed_base : String
  pub observed_policy : String
  pub observed_incarnation : ℕ
  pub observed_phase : Phase

pub record FaultM : Type 0 where
  pub op : String
  pub op_key : String
  pub head : String
  pub base : String
  pub policy : String
  pub reason : String
  pub incarnation : ℕ
  pub kind : String
  pub instruction : String
  pub run_id : ℕ
  pub attempt : ℕ

pub record DeclinedM : Type 0 where
  pub op : String
  pub op_key : String
  pub head : String
  pub incarnation : ℕ
  pub category : String
  pub reason : String

pub record MutEnded : Type 0 where
  pub state : MutPhase
  pub reason : String

pub record AnnounceCandidate : Type 0 where
  pub incarnation : ℕ
  pub head : String

pub record ALanded : Type 0 where
  pub incarnation : ℕ
  pub head : String

-- ADeferred and AWake have the same fields
pub record ADeferred : Type 0 where
  pub op : String
  pub incarnation : ℕ
  pub head : String
  pub base : String
  pub policy : String
  pub strict_base : Bool
  pub base_current : Bool
  pub blocker : String

pub record AWake : Type 0 where
  pub op : String
  pub incarnation : ℕ
  pub head : String
  pub base : String
  pub policy : String
  pub strict_base : Bool
  pub base_current : Bool
  pub blocker : String

-- the fold of a blocked announcement reads none of the terminal's fields
pub record ABlocked : Type 0 where
  pub incarnation : ℕ
  pub head : String
  pub base : String
  pub policy : String

pub record AMoved : Type 0 where
  pub incarnation : ℕ
  pub observed_head : String
  pub observed_base : String
  pub observed_policy : String
  pub observed_incarnation : ℕ
  pub observed_phase : Option Phase

pub record AFault : Type 0 where
  pub op : String
  pub incarnation : ℕ
  pub reason : String

pub record ReadyEnded : Type 0 where
  pub announced : List ℕ
  pub faults : Dict String
  pub reason : String
