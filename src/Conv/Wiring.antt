-- ===== src/Conv/Wiring.antt =====
-- The output arcs of the transitions of src/hamsterdan/readiness/net_v5/conversation.py (`wire`).
use hamsterdan.Base.{String, Option, none, some, List, [], ◌∷◌, ◌≡◌, refl, arith, before_colon}
use hamsterdan.Colors.{
  IntentFact, RecoverFact, Replied, ReplyBlocked, ReplyFault, ConvMemory, Mail, route,
}
use hamsterdan.Conv.{
  Grade, immediate, note, committing, grade, answer_recovery, recover_route, note_routes, classify,
  answer, answer_grade, fold_replied, fold_blocked, fold_fault, recover, recover_reply,
}

-- a transition with the tokens that it binds
pub data ConvFiring : Type 0 where
  classified : IntentFact → ConvMemory → ConvFiring
  replied : Replied → ConvMemory → ConvFiring
  blocked : ReplyBlocked → ConvMemory → ConvFiring
  faulted : ReplyFault → ConvMemory → ConvFiring
  recovered : RecoverFact → ConvMemory → ConvFiring

-- its output arcs
abbrev pub arcs : ConvFiring → List String
arcs (classified x0 x1) =
    "conv.memory" ∷ "conv.reply_req" ∷ "conv.recover" ∷ "mut.requests" ∷ "mut.recover"
    ∷ "review.recover" ∷ "review.dismiss" ∷ "rem.snoozes" ∷ "rem.recover" ∷ "dash.recover"
    ∷ "ready.recover" ∷ "esc.recover" ∷ []
arcs (replied x0 x1) = "conv.memory" ∷ "dash.facts" ∷ []
arcs (blocked x0 x1) = "conv.memory" ∷ []
arcs (faulted x0 x1) = "conv.memory" ∷ "dash.facts" ∷ []
arcs (recovered x0 x1) = "conv.memory" ∷ "conv.reply_req" ∷ []

-- what its fold sends
abbrev pub sends : ConvFiring → List Mail
sends (classified x0 x1) = classify x0 x1
sends (replied x0 x1) = fold_replied x0 x1
sends (blocked x0 x1) = fold_blocked x0 x1
sends (faulted x0 x1) = fold_fault x0 x1
sends (recovered x0 x1) = recover x0 x1

-- the output arcs of `classify`
abbrev IsWired : List Mail → Type 0
IsWired ms = (i : IntentFact) (mem : ConvMemory) → route (arcs (classified i mem)) ms ≡ ms

recovery-IsWired :
    (i : IntentFact) (text p : String) → IsWired (answer_recovery i text (recover_route p)).1
recovery-IsWired i text p j mem = ground arith

notes-IsWired : (i : IntentFact) → IsWired (note_routes i)
notes-IsWired i j mem = ground arith

grade-IsWired : (i : IntentFact) (g : Option Grade) → IsWired (answer_grade i g).1
unfolding answer_grade
grade-IsWired i none j mem = refl
grade-IsWired i (some immediate) j mem = refl
grade-IsWired i (some (note text)) j mem =
    ground (arith, recovery-IsWired i text (before_colon i.arg) j mem, notes-IsWired i j mem)
grade-IsWired i (some (committing text)) j mem = ground arith

answer-IsWired : (i : IntentFact) → IsWired (answer i).1
unfolding answer
answer-IsWired i j mem = ground (arith, grade-IsWired i (grade i.kind) j mem)

classify-IsWired : (i : IntentFact) (m : ConvMemory) → IsWired (classify i m)
unfolding classify
classify-IsWired i m j mem = ground (arith, answer-IsWired i j mem)

pub sends-route : (f : ConvFiring) → route (arcs f) (sends f) ≡ sends f
unfolding fold_replied fold_blocked fold_fault recover recover_reply
sends-route (classified x0 x1) = classify-IsWired x0 x1 x0 x1
sends-route (replied x0 x1) = ground arith
sends-route (blocked x0 x1) = ground arith
sends-route (faulted x0 x1) = ground arith
sends-route (recovered x0 x1) = ground arith
