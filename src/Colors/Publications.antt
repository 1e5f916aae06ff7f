-- ===== src/Colors/Publications.antt =====
-- The values of the conversation and dashboard loops (contracts/readiness_v5.py).
use hamsterdan.Base.{String, Option, List, Dict}

pub record DismissFact : Type 0 where
  pub finding_id : String

-- a value of `ConvMemory.faulted`
pub record ReplyHeld : Type 0 where
  pub text : String
  pub reason : String

pub record ConvMemory : Type 0 where
  pub served : List String
  pub pending : Dict String
  pub blocked : Dict String
  pub faulted : Dict ReplyHeld

pub record ReplyReq : Type 0 where
  pub id : String
  pub text : String

pub record Replied : Type 0 where
  pub id : String
  pub text : String

pub record ReplyBlocked : Type 0 where
  pub id : String
  pub text : String

pub record ReplyFault : Type 0 where
  pub id : String
  pub text : String
  pub reason : String

-- a request that a blocked or faulted upsert retains; `reason` is "" for a blocked one
pub record DashHeld : Type 0 where
  pub entries : List String
  pub digest : String
  pub reason : String

-- `blocked` and `faulted` are `none` for the empty dictionary
pub record DashMemory : Type 0 where
  pub entries : List String
  pub digest : String
  pub landed : String
  pub blocked : Option DashHeld
  pub faulted : Option DashHeld

pub record DashReq : Type 0 where
  pub entries : List String
  pub digest : String
  pub desired_entries : List String
  pub desired_digest : String
  pub landed : String
  pub blocked : Option DashHeld
  pub faulted : Option DashHeld

pub record DashLanded : Type 0 where
  pub entries : List String
  pub digest : String
  pub desired_entries : List String
  pub desired_digest : String

-- DashDeferred has the fields of a request
pub record DashDeferred : Type 0 where
  pub entries : List String
  pub digest : String
  pub desired_entries : List String
  pub desired_digest : String
  pub landed : String
  pub blocked : Option DashHeld
  pub faulted : Option DashHeld

pub record DashBlocked : Type 0 where
  pub entries : List String
  pub digest : String
  pub desired_entries : List String
  pub desired_digest : String

pub record DashFault : Type 0 where
  pub entries : List String
  pub digest : String
  pub desired_entries : List String
  pub desired_digest : String
  pub reason : String

pub record SummaryPublished : Type 0 where
  pub digest : String

pub record DashHeal : Type 0 where
  pub entries : List String
  pub digest : String

pub record DashEnded : Type 0 where
  pub entries : List String
  pub reason : String
