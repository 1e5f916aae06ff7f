-- ===== src/Host/Rerun/Echo.antt =====
-- The rerun gate keeps the protocol that the escalation ladder relies on.
use hamsterdan.Base.{some, List, ◌≡◌}
use hamsterdan.Colors.{RerunReq, Mail}
use hamsterdan.Esc.{fold_rerun_landed, fold_rerun_moved, fold_rerun_fault}
use hamsterdan.Esc.Protocol.{emit, in_gate}
use hamsterdan.Host.Rerun.Grounds.{event_of, Grounds}
use hamsterdan.Host.Rerun.{RerunAnswer, landed, moved, faulted}

-- the fold that the answer's color is routed to
abbrev pub fold_of : RerunAnswer → List Mail
fold_of (landed l) = fold_rerun_landed l
fold_of (moved m) = fold_rerun_moved m
fold_of (faulted f) = fold_rerun_fault f

abbrev Echoes : RerunReq → RerunAnswer → Type 0
Echoes work a = emit (in_gate work) (event_of a) ≡ some (fold_of a)
