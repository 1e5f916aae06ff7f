-- ===== src/Ci/Wiring.antt =====
-- The output arcs of the CI transitions (`wire` of src/hamsterdan/readiness/net_v5/ci.py).
use hamsterdan.Base.{String, List, [], ◌∷◌, ◌≡◌, refl, arith}
use hamsterdan.Colors.{CiState, CiEnded, EscMoved, CloseFact, route, sent}
use hamsterdan.Ci.{
  admit_refresh, admit_head, adopt, stale_on, assess, recheck, end, drain_echo, CiEvent, head_work,
  run_work, moved_echo, fold,
}

-- the output arcs of the transition that a token is bound to
abbrev pub arcs : CiEvent → List String
arcs (head_work w) = "ci.state" ∷ "ready.checks_facts" ∷ "esc.failures" ∷ "dash.facts" ∷ []
arcs (run_work r) = "ci.state" ∷ "ready.checks_facts" ∷ "esc.failures" ∷ "dash.facts" ∷ []
arcs (moved_echo m) = "ci.state" ∷ "esc.failures" ∷ []

pub close-route : (c : CloseFact) (s : CiState) → route ("ci.done" ∷ []) (end c s) ≡ end c s
unfolding end
close-route c s = refl

pub echo-route :
    (m : EscMoved) (x : CiEnded) → route ("ci.done" ∷ []) (drain_echo m x) ≡ drain_echo m x
unfolding drain_echo
echo-route m x = refl

pub fold-route : (e : CiEvent) (s : CiState) → route (arcs e) (sent (fold e s)) ≡ sent (fold e s)
unfolding fold admit_head assess recheck admit_refresh adopt stale_on
fold-route (head_work w) s = ground arith
fold-route (run_work r) s = ground arith
fold-route (moved_echo m) s = ground arith
