-- ===== src/Colors/Reviews.antt =====
-- The values of the review loop (contracts/readiness_v5.py).
use hamsterdan.Base.{ℕ, String, Bool, Option, List, Dict}
use hamsterdan.Colors.Ingress.{Phase, ReviewStatus}

pub record Location : Type 0 where
  pub path : String
  pub line : ℕ

-- A finding: a dictionary, whose keys that the loop and the publish gate read are fields. A key that is
-- not there is the empty value, which is what the gate reads in its place; `rest` holds the other keys.
pub record Finding : Type 0 where
  pub id : String
  pub blocking : Bool
  pub path : String
  pub line : ℕ
  pub body : String
  pub suggestion : String
  pub related_locations : List Location
  pub rest : Dict String

pub data PubPhase : Type 0 where
  pending blocked faulted cancelled : PubPhase

-- why GitHub refused: `failure_class`, `provider_status` and `provider_detail`
pub record Refusal : Type 0 where
  pub failure_class : String
  pub provider_status : Option ℕ
  pub provider_detail : String

-- The publication descriptor of an operation; a key that is not there is `none`.
pub record PubRecord : Type 0 where
  pub phase : PubPhase
  pub effect : String
  pub op : String
  pub head : String
  pub base : String
  pub policy : String
  pub incarnation : ℕ
  pub findings : List Finding
  pub refusal : Option Refusal
  pub reason : Option String
  pub was : Option PubPhase

-- `pub` of the memory: `{"phase": "idle"}`, the descriptor of an operation, or the faulted descriptor
-- with a reason alone that a fault makes of an idle one
pub data Pub : Type 0 where
  idle : Pub
  held : PubRecord → Pub
  stray : String → Pub

pub record ReviewMemory : Type 0 where
  pub subject : String
  pub head : String
  pub incarnation : ℕ
  pub status : ReviewStatus
  pub reviewed : List String
  pub provisional : List Finding
  pub findings : List Finding
  pub lineage : List (Dict String)
  pub dismissed : List String
  pub publication : Pub

pub record RoundOpen : Type 0 where
  pub operation : String
  pub head : String
  pub base : String
  pub policy : String
  pub incarnation : ℕ
  pub prior_findings : List Finding
  pub prior_lineage : List (Dict String)
  pub mem : ReviewMemory
  pub attempt : ℕ

pub record AgentReview : Type 0 where
  pub head : String
  pub base : String
  pub policy : String
  pub incarnation : ℕ
  pub findings : List Finding
  pub lineage : List (Dict String)
  pub mem : ReviewMemory

pub record RoundMoved : Type 0 where
  pub head : String
  pub incarnation : ℕ
  pub observed : String
  pub observed_base : String
  pub observed_policy : String
  pub observed_incarnation : ℕ
  pub observed_phase : Phase
  pub mem : ReviewMemory

pub record RoundUnable : Type 0 where
  pub head : String
  pub incarnation : ℕ
  pub category : String
  pub mem : ReviewMemory

pub record RoundDeferred : Type 0 where
  pub operation : String
  pub head : String
  pub base : String
  pub policy : String
  pub incarnation : ℕ
  pub prior_findings : List Finding
  pub prior_lineage : List (Dict String)
  pub mem : ReviewMemory
  pub attempt : ℕ
  pub blocker : String

pub record RoundWake : Type 0 where
  pub operation : String
  pub attempt : ℕ
  pub blocker : String

pub record Publishable : Type 0 where
  pub head : String
  pub base : String
  pub policy : String
  pub incarnation : ℕ
  pub findings : List Finding
  pub effect : String
  pub op : String
  pub mem : ReviewMemory

pub record PublicationDeferred : Type 0 where
  pub operation : String
  pub head : String
  pub base : String
  pub policy : String
  pub incarnation : ℕ
  pub findings : List Finding
  pub effect : String
  pub mem : ReviewMemory
  pub attempt : ℕ
  pub blocker : String

pub record EmptyReview : Type 0 where
  pub head : String
  pub incarnation : ℕ
  pub mem : ReviewMemory

pub record ReviewLanded : Type 0 where
  pub head : String
  pub incarnation : ℕ
  pub findings : List Finding
  pub effect : String
  pub mem : ReviewMemory

pub record ReviewMoved : Type 0 where
  pub head : String
  pub observed : String
  pub observed_base : String
  pub observed_policy : String
  pub observed_incarnation : ℕ
  pub observed_phase : Phase
  pub findings : List Finding
  pub mem : ReviewMemory

pub record ReviewBlocked : Type 0 where
  pub head : String
  pub base : String
  pub policy : String
  pub incarnation : ℕ
  pub findings : List Finding
  pub effect : String
  pub op : String
  pub refusal : Refusal
  pub mem : ReviewMemory

pub record ReviewFault : Type 0 where
  pub reason : String
  pub mem : ReviewMemory

-- `pub_phase` is the phase of the descriptor: `none` for "idle"
pub record ReviewEnded : Type 0 where
  pub reviewed : List String
  pub pub_phase : Option PubPhase
  pub reason : String
