-- ===== src/Gating.antt =====
-- The operation identities under which the gates are dispatched, and the terminal of a claim that expired
-- (src/hamsterdan/readiness/net_v5/gating.py). `none` is a ValueError.
pub mod Dispatch
mod Examples
use Prim.Native.Char.{code}
use hamsterdan.Base.{
  ℕ, zero, suc, String, Bool, true, false, not, Option, none, some, ◌&&◌, ◌==◌, leb, if◌then◌else◌,
  ◌⧺◌,
}
use hamsterdan.Colors.{
  RoundOpen, Publishable, RerunReq, RemReq, MutWork, ReplyReq, DashReq, AnnounceReq, ReplyBlocked,
  DashBlocked, ABlocked,
}
use hamsterdan.Review.Identity.{is_marker_operation}

-- `[!-~]`
abbrev is_graphic_char : ℕ → Bool
is_graphic_char c = leb 33 c && leb c 126

-- `[!-~]{0,n}` to the end of the text
unfoldable pub graphic_rest : ℕ → String → Bool
graphic_rest n String.[] = true
graphic_rest zero (String.◌∷◌ c s) = false
graphic_rest (suc n) (String.◌∷◌ c s) =
    let rest = graphic_rest n s in is_graphic_char (code c) && rest

-- `_GRAPHIC_OPERATION.fullmatch`
unfoldable pub is_graphic_operation : String → Bool
unfolding graphic_rest
is_graphic_operation String.[] = false
is_graphic_operation (String.◌∷◌ c s) = graphic_rest 1024 (String.◌∷◌ c s)

-- the request of an inline gate
pub data InlineRequest : Type 0 where
  review_agent : RoundOpen → InlineRequest
  publish_gate : Publishable → InlineRequest
  rerun_gate : RerunReq → InlineRequest
  reminder_gate : RemReq → InlineRequest
  git_gate : MutWork → InlineRequest

abbrev pub if_fits : Bool → String → Option String
if_fits b operation = if b then some operation else none

-- IdentifiedInlineActivityHandler.prepare: the operation that correlates the call
unfoldable pub inline_operation : InlineRequest → Option String
unfolding is_marker_operation is_graphic_operation
inline_operation (review_agent r) = if_fits (is_graphic_operation r.operation) r.operation
inline_operation (publish_gate q) =
    if not (q.effect == q.op) then none else if_fits (is_marker_operation q.op) q.op
inline_operation (rerun_gate r) = if_fits (is_marker_operation r.op) r.op
inline_operation (reminder_gate r) =
    if not (is_marker_operation r.timer_id)
    then none
    else if_fits (is_marker_operation ("reminder:" ⧺ r.timer_id)) ("reminder:" ⧺ r.timer_id)
inline_operation (git_gate w) = if_fits (is_graphic_operation w.op_key) w.op_key

-- the request of a durable gate
pub data DurableRequest : Type 0 where
  reply_gate : ReplyReq → DurableRequest
  dash_gate : DashReq → DurableRequest
  announce_gate : AnnounceReq → DurableRequest

-- DurablePublicationActivityHandler.prepare
unfoldable pub durable_operation : DurableRequest → String
durable_operation (reply_gate r) = "reply:" ⧺ r.id
durable_operation (dash_gate r) = "dash:" ⧺ r.digest
durable_operation (announce_gate r) = r.op

-- the blocked terminal of a durable gate
pub data Expired : Type 0 where
  reply : ReplyBlocked → Expired
  dash : DashBlocked → Expired
  announce : ABlocked → Expired

abbrev pub expired : DurableRequest → Expired
expired (reply_gate r) = reply (record { id = r.id; text = r.text })
expired (dash_gate r) = dash (record {
  entries = r.entries;
  digest = r.digest;
  desired_entries = r.desired_entries;
  desired_digest = r.desired_digest;
})
expired (announce_gate r) =
    announce
      (record { incarnation = r.incarnation; head = r.head; base = r.base; policy = r.policy })

-- DurablePublicationActivityHandler.project_failure, by the kind of the failure
unfoldable pub project_failure : String → DurableRequest → Option Expired
project_failure kind request =
    if not (kind == "DeadlineExceeded") then none else some (expired request)
