-- ===== src/Colors/Facts.antt =====
-- The directed facts, mailed from loop to loop (contracts/readiness_v5.py).
use hamsterdan.Base.{ℕ, String, Bool, Option}
use hamsterdan.Colors.Ingress.{Phase, HeadRelation, ChecksStatus, ReviewStatus, RunConclusion}

pub record HeadWork : Type 0 where
  pub incarnation : ℕ
  pub head : String
  pub base : String
  pub policy : String
  pub relation : HeadRelation
  pub lineage : String

pub record IntentFact : Type 0 where
  pub id : String
  pub kind : String
  pub arg : String
  pub authorized : Bool
  pub phase : Phase
  pub provisional : Bool
  pub incarnation : ℕ
  pub head : String
  pub base : String
  pub policy : String

pub record CloseFact : Type 0 where
  pub reason : String

pub record RunWork : Type 0 where
  pub incarnation : ℕ
  pub head : String
  pub run_id : ℕ
  pub attempt : ℕ
  pub conclusion : RunConclusion
  pub fingerprint : String

pub record ProvisionalHead : Type 0 where
  pub expected : String
  pub from_head : String
  pub op : String
  pub lineage : String

pub record EscMoved : Type 0 where
  pub fp : String
  pub head : String
  pub base : String
  pub policy : String
  pub incarnation : ℕ

pub record MutationRequest : Type 0 where
  pub op : String
  pub rid : String
  pub head : String
  pub base : String
  pub policy : String
  pub incarnation : ℕ
  pub source : String
  pub kind : String
  pub instruction : String
  pub run_id : ℕ
  pub attempt : ℕ

pub data Outcome : Type 0 where
  landed declined moved faulted : Outcome

pub record MutationSettled : Type 0 where
  pub op : String
  pub op_key : String
  pub outcome : Outcome
  pub incarnation : ℕ
  pub fingerprint : String

pub record StateFactBody : Type 0 where
  pub phase : Phase
  pub head : String
  pub base : String
  pub mergeable : Bool
  pub policy : String
  pub strict_base : Bool
  pub base_current : Bool

pub record StateFact : Type 0 where
  pub incarnation : ℕ
  pub body : StateFactBody

pub record ChecksFact : Type 0 where
  pub incarnation : ℕ
  pub status : ChecksStatus

-- `category` is the one of ReviewUnableFactBody
pub record ReviewFact : Type 0 where
  pub incarnation : ℕ
  pub head : String
  pub status : ReviewStatus
  pub category : Option String

pub record FindingsFact : Type 0 where
  pub incarnation : ℕ
  pub head : String
  pub blocking : ℕ
  pub count : ℕ

pub record HumanFact : Type 0 where
  pub incarnation : ℕ
  pub approval : Bool
  pub changes_requested : Bool
  pub unresolved : ℕ

pub record MutationPendingFact : Type 0 where
  pub incarnation : ℕ
  pub op : String
  pub op_key : String

pub record MutationSettledFact : Type 0 where
  pub incarnation : ℕ
  pub body : MutationSettled

-- `where` of a fault body: `Literal["review"]`, `Literal["mutation", "rerun"]`
pub data Owner : Type 0 where
  review mutation rerun : Owner

abbrev pub owner_text : Owner → String
owner_text review = "review"
owner_text mutation = "mutation"
owner_text rerun = "rerun"

-- The incarnation of both fault facts is the literal 0.
pub record FaultRaisedFact : Type 0 where
  pub owner : Owner
  pub op : String
  pub reason : String

pub data ClearedStatus : Type 0 where
  resolved cancelled : ClearedStatus

pub record FaultClearedFact : Type 0 where
  pub owner : Owner
  pub op : String
  pub status : ClearedStatus

pub record RecoverFact : Type 0 where
  pub target : String
  pub op : String

pub record ReminderCycleStarted : Type 0 where
  pub incarnation : ℕ
  pub head : String
  pub delay_s : ℕ

pub record ReminderCyclePaused : Type 0 where
  pub incarnation : ℕ
  pub head : String
  pub reason : String

-- What is mailed to the dashboard: a typed fact, or one of the open `GateFact` envelopes with the
-- kinds and bodies that the loops build.
pub data DashFact : Type 0 where
  state : StateFact → DashFact
  checks : ChecksFact → DashFact
  human : HumanFact → DashFact
  mutation_pending : MutationPendingFact → DashFact
  mutation_settled : MutationSettledFact → DashFact
  fault_raised : FaultRaisedFact → DashFact
  fault_cleared : FaultClearedFact → DashFact
  human_needed : ℕ → String → String → Bool → DashFact
  announced : ℕ → String → DashFact
  announce_fault : String → String → DashFact
  reminder : String → DashFact
  reminder_fault : String → DashFact
  reply_fault : String → String → DashFact
  reply_resolved : String → DashFact
  review_status : ReviewFact → DashFact
  review_findings : FindingsFact → DashFact
