-- ===== src/Colors/Ingress.antt =====
-- The literals, and the observations that the host delivers (contracts/readiness_v5.py).
use hamsterdan.Base.{ℕ, String, Bool, true, false}

pub data Phase : Type 0 where
  running quiescent terminal : Phase

-- `==` on phases
abbrev pub phase_eq : Phase → Phase → Bool
phase_eq running running = true
phase_eq quiescent quiescent = true
phase_eq terminal terminal = true
phase_eq _ _ = false

pub data HeadRelation : Type 0 where
  new superseded confirmed resumed refreshed : HeadRelation

abbrev pub is_refreshed : HeadRelation → Bool
is_refreshed refreshed = true
is_refreshed _ = false

-- `relation in ("new", "superseded")`
abbrev pub is_new_code : HeadRelation → Bool
is_new_code new = true
is_new_code superseded = true
is_new_code _ = false

-- ChecksStatus; a RunConclusion is one of the last four
pub data ChecksStatus : Type 0 where
  pending queued in_progress success failure : ChecksStatus

pub data RunConclusion : Type 0 where
  queued in_progress success failure : RunConclusion

pub data ReviewStatus : Type 0 where
  pending clear blocking unable : ReviewStatus

pub record HeadSeen : Type 0 where
  pub head : String
  pub base : String
  pub mergeable : Bool
  pub policy : String
  pub strict_base : Bool
  pub base_current : Bool

pub record CloseSeen : Type 0 where
  pub reason : String

pub record CommentSeen : Type 0 where
  pub id : String
  pub kind : String
  pub arg : String
  pub authorized : Bool

pub record HumanSeen : Type 0 where
  pub approval : Bool
  pub changes_requested : Bool
  pub unresolved : ℕ

pub record RunSeen : Type 0 where
  pub head : String
  pub run_id : ℕ
  pub attempt : ℕ
  pub conclusion : RunConclusion
  pub fingerprint : String
