-- ===== src/Conv/Protocol.antt =====
-- Runs of the conversation loop: its baton rests between transitions, and the answers of the reply gate
-- are any tokens.
use hamsterdan.Base.{List, [], ◌∷◌, ◌++◌}
use hamsterdan.Colors.{
  IntentFact, RecoverFact, ConvMemory, Replied, ReplyBlocked, ReplyFault, Mail, conv_memory,
}
use hamsterdan.Conv.{classify, fold_replied, fold_blocked, fold_fault, recover}

-- a token of the loop's mailboxes
pub data ConvEvent : Type 0 where
  commented : IntentFact → ConvEvent
  replied : Replied → ConvEvent
  blocked : ReplyBlocked → ConvEvent
  faulted : ReplyFault → ConvEvent
  recovered : RecoverFact → ConvEvent

unfoldable pub emit : ConvMemory → ConvEvent → List Mail
unfolding classify fold_replied fold_blocked fold_fault recover
emit mem (commented i) = classify i mem
emit mem (replied r) = fold_replied r mem
emit mem (blocked b) = fold_blocked b mem
emit mem (faulted f) = fold_fault f mem
emit mem (recovered r) = recover r mem

-- the memory that a transition puts back
abbrev pub kept : ConvMemory → List Mail → ConvMemory
kept mem [] = mem
kept mem (conv_memory m ∷ ms) = m
kept mem (_ ∷ ms) = kept mem ms

-- all that a run mails
unfoldable pub mailed : ConvMemory → List ConvEvent → List Mail
unfolding emit
mailed mem [] = []
mailed mem (e ∷ es) = let ms = emit mem e in ms ++ mailed (kept mem ms) es
