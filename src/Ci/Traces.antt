-- ===== src/Ci/Traces.antt =====
-- Runs of the CI loop, and its invariant.
use mathlib.Core.Option
use hamsterdan.Base.{
  Bool, not, inl, inr, ℕ, String, Option, none, some, List, [], ◌∷◌, ◌++◌, ◌≡◌, ◌≢◌, refl, arith,
  All, is_some, true, false, Option-cases, eq_iff,
}
use hamsterdan.Colors.{
  HeadWork, RunWork, EscMoved, ChecksStatus, CiState, ChecksFailure, Mail, ci_state, esc_failures,
}
use hamsterdan.Ci.{CiEvent, head_work, run_work, moved_echo, seed, stale_on, assess, fold}

-- the baton among the tokens
abbrev pub baton : CiState → List Mail → CiState
baton s [] = s
baton s (ci_state t ∷ ms) = t
baton s (_ ∷ ms) = baton s ms

abbrev pub failures : List Mail → List ChecksFailure
failures [] = []
failures (esc_failures f ∷ ms) = f ∷ failures ms
failures (_ ∷ ms) = failures ms

-- the baton after a run, and all that the run mails; `none` if a fold raised
unfoldable pub run : CiState → List CiEvent → Option (CiState × List Mail)
run s [] = some (s, [])
run s (e ∷ es) = elim (fold e s) [
  | none ↦ none
  | some ms ↦ Option.map (λ r. (r.0, ms ++ r.1)) (run (baton s ms) es)
]

abbrev pub is_pending : ChecksStatus → Bool
is_pending ChecksStatus.pending = true
is_pending _ = false

abbrev Parks : String → List String → Type 0
Parks fp ps = All (λ p. p ≡ fp) ps

-- A run is held exactly when the status is one of a run; only the held fingerprint is parked, and
-- only while its run is a failure.
pub record IsWellFormed (s : CiState) : Type 0 where
  pub seen : is_some s.best ≡ not (is_pending s.status)
  pub parks_current : Parks s.fingerprint s.parked
  pub parks_failure : s.parked ≢ [] → s.status ≡ ChecksStatus.failure

pub seed-IsWellFormed : IsWellFormed seed
seed-IsWellFormed = record { seen = refl; parks_current = tt; parks_failure = λ h. absurd (h refl) }

Parks-snoc : (fp p : String) (ps : List String) → p ≡ fp → Parks fp ps → Parks fp (ps ++ p ∷ [])
Parks-snoc fp p [] e h = (e, tt)
Parks-snoc fp p (q ∷ ps) e h = (h.0, Parks-snoc fp p ps e h.1)

stale_on_total :
    (r : RunWork) (status : ChecksStatus) (best : Option (ℕ × ℕ))
    → is_some best ≡ not (is_pending status)
    → stale_on r status best ≢ none
unfolding stale_on
stale_on_total r status none h p = cc
stale_on_total r ChecksStatus.pending (some (a, b)) h p = cc
stale_on_total r _ (some (a, b)) h p = ground arith

never : (e : CiEvent) (s : CiState) → IsWellFormed s → fold e s ≢ none
unfolding fold
never (head_work w) s h p = ground arith
never (run_work w) s h p = unfold assess in ground (arith, stale_on_total w s.status s.best h.seen)
never (moved_echo m) s h p = ground arith

keeps_head :
    (w : HeadWork) (s : CiState) (ms : List Mail)
    → IsWellFormed s
    → fold (head_work w) s ≡ some ms
    → IsWellFormed (baton s ms)
unfolding fold
keeps_head w s ms h p = ground arith

keeps_run :
    (r : RunWork) (s : CiState) (ms : List Mail)
    → IsWellFormed s
    → fold (run_work r) s ≡ some ms
    → IsWellFormed (baton s ms)
unfolding fold
keeps_run r s ms h p = ground arith

keeps_echo :
    (m : EscMoved) (s : CiState) (ms : List Mail)
    → IsWellFormed s
    → fold (moved_echo m) s ≡ some ms
    → IsWellFormed (baton s ms)
unfolding fold
keeps_echo m s ms h p =
    ground (arith, Parks-snoc s.fingerprint m.fp s.parked, eq_iff s.fingerprint m.fp)

keeps :
    (e : CiEvent) (s : CiState) (ms : List Mail)
    → IsWellFormed s
    → fold e s ≡ some ms
    → IsWellFormed (baton s ms)
keeps (head_work w) s ms h p = keeps_head w s ms h p
keeps (run_work w) s ms h p = keeps_run w s ms h p
keeps (moved_echo w) s ms h p = keeps_echo w s ms h p

-- From a well-formed baton no fold raises, and the baton that it gives back is well formed.
pub fold_total :
    (e : CiEvent) (s : CiState)
    → IsWellFormed s
    → (ms : List Mail) × (fold e s ≡ some ms) × IsWellFormed (baton s ms)
unfolding fold
fold_total e s h = elim (Option-cases (fold e s)) [
  | inl p ↦ absurd (never e s h p)
  | inr (ms, p) ↦ (ms, p, keeps e s ms h p)
]

-- From a well-formed baton no run of the loop raises, and it ends in a well-formed baton.
pub run_total :
    (es : List CiEvent) (s : CiState)
    → IsWellFormed s
    → (r : CiState × List Mail) × (run s es ≡ some r) × IsWellFormed r.0
unfolding run
run_total [] s h = ((s, []), refl, h)
run_total (e ∷ es) s h =
    let (ms, p, h') = fold_total e s h in
    let (r, q, k) = run_total es (baton s ms) h' in ((r.0, ms ++ r.1), rw (p, run) (rw q refl), k)
