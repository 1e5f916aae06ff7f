-- ===== src/Ci/Authority.antt =====
-- What CI mails carries the authority, the budget lineage and the verdict of the baton that it
-- gives back.
use hamsterdan.Base.{String, true, false, some, List, ◌≡◌, ◌≢◌, arith, All, ◌⧺◌, decimal, eq_iff}
use hamsterdan.Colors.{
  ChecksStatus, CiState, ChecksFailure, EscMoved, is_new_code, Mail, esc_failures,
  ready_checks_facts, dash_facts, checks,
}
use hamsterdan.Ci.{CiEvent, head_work, run_work, moved_echo, fold}
use hamsterdan.Ci.Traces.{baton}

-- A failure mail is the baton's verdict under the baton's full claim.
pub record Indicts (s : CiState) (f : ChecksFailure) : Type 0 where
  pub failing : s.status ≡ ChecksStatus.failure
  pub fingerprint : f.fingerprint ≡ s.fingerprint
  pub head : f.head ≡ s.head
  pub base : f.base ≡ s.base
  pub policy : f.policy ≡ s.policy
  pub lineage : f.lineage ≡ s.lineage
  pub incarnation : f.incarnation ≡ s.incarnation
  pub evidence : s.best ≡ some (f.run_id, f.attempt)

abbrev pub Claims : CiState → Mail → Type 0
Claims s (esc_failures f) = Indicts s f
Claims s (ready_checks_facts c) = (c.incarnation ≡ s.incarnation) × (c.status ≡ s.status)
Claims s (dash_facts (checks c)) = (c.incarnation ≡ s.incarnation) × (c.status ≡ s.status)
Claims s _ = Unit

-- Whatever the transition, a failure that it mails to escalation is the verdict of the baton that it
-- gives back, under that baton's head, base, policy, lineage and incarnation and with its evidence;
-- and a checks fact carries that baton's incarnation and status.
pub fold-Claims :
    (e : CiEvent) (s : CiState) (ms : List Mail) → fold e s ≡ some ms → All (Claims (baton s ms)) ms
unfolding fold
fold-Claims (head_work w) s ms h = ground (arith)
fold-Claims (run_work r) s ms h = ground (arith)
fold-Claims (moved_echo m) s ms h = ground (arith, eq_iff s.fingerprint m.fp)

abbrev pub LineageAfter : CiEvent → CiState → String → Type 0
LineageAfter (head_work w) s lineage =
    (is_new_code w.relation ≡ true → lineage ≡ "L" ⧺ decimal w.incarnation)
    × (is_new_code w.relation ≡ false → s.lineage ≢ "" → lineage ≡ s.lineage)
LineageAfter (run_work r) s lineage = lineage ≡ s.lineage
LineageAfter (moved_echo m) s lineage = lineage ≡ s.lineage

-- New code gets the budget lineage of its incarnation. Every other transition keeps the lineage
-- that there is: runs, echoes, refreshes, and the admission of a confirmed or a resumed head.
pub lineage-fold :
    (e : CiEvent) (s : CiState) (ms : List Mail)
    → fold e s ≡ some ms
    → LineageAfter e s (baton s ms).lineage
unfolding fold
lineage-fold (head_work w) s ms h =
    (λ new. ground arith, λ kept some_lineage. ground (arith, eq_iff s.lineage ""))
lineage-fold (run_work r) s ms h = ground arith
lineage-fold (moved_echo m) s ms h = ground arith

-- The claim that an echo says was attempted.
abbrev pub IsAttempt : EscMoved → ChecksFailure → Type 0
IsAttempt m f =
    (f.head ≡ m.head) × (f.base ≡ m.base) × (f.policy ≡ m.policy) × (f.incarnation ≡ m.incarnation)

abbrev pub IsFresher : EscMoved → Mail → Type 0
IsFresher m (esc_failures f) = ¬ (IsAttempt m f)
IsFresher m _ = Unit

-- An escalation that moved is never reissued under the claim that moved.
pub recheck-IsFresher :
    (m : EscMoved) (s : CiState) (ms : List Mail)
    → fold (moved_echo m) s ≡ some ms
    → All (IsFresher m) ms
unfolding fold
recheck-IsFresher m s ms h =
    ground (arith, eq_iff m.head s.head, eq_iff m.base s.base, eq_iff m.policy s.policy)
