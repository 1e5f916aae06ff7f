-- ===== src/Ci/Evidence.antt =====
-- The newest exact-head evidence wins, in whatever order the runs are observed.
use hamsterdan.Base.{
  ℕ, ◌<◌, ◌≤◌, Bool, true, false, ◌&&◌, ◌||◌, Option, none, some, List, [], ◌∷◌, ◌++◌, map, ◌≡◌,
  ◌⊎◌, inl, inr, refl, ◌∙◌, arith, All, ◌==◌, eq_iff, eqb,
}
use hamsterdan.Colors.{ChecksStatus, CiState, RunWork, Mail}
use mathlib.Core.Bool.{or-true}
use hamsterdan.Ci.{run_work, status_of, fold}
use hamsterdan.Ci.Traces.{baton, run, IsWellFormed, fold_total}

-- how far a status is towards its conclusion
abbrev pub progress : ChecksStatus → ℕ
progress ChecksStatus.pending = 0
progress ChecksStatus.queued = 0
progress ChecksStatus.in_progress = 1
progress ChecksStatus.success = 2
progress ChecksStatus.failure = 2

-- The evidence held is as new as the run: a later run or attempt, or the same one as far on.
abbrev pub Covers : Option (ℕ × ℕ) → ChecksStatus → RunWork → Type 0
Covers none status r = ⊥
Covers (some (a, b)) status r =
    (r.run_id < a)
    ⊎ ((r.run_id ≡ a) × (r.attempt < b))
    ⊎ ((r.run_id ≡ a) × (r.attempt ≡ b) × (progress (status_of r.conclusion) ≤ progress status))

abbrev pub IsCovered : CiState → RunWork → Type 0
IsCovered s r = r.head ≡ s.head → Covers s.best s.status r

abbrev pub status_eq : ChecksStatus → ChecksStatus → Bool
status_eq ChecksStatus.pending ChecksStatus.pending = true
status_eq ChecksStatus.queued ChecksStatus.queued = true
status_eq ChecksStatus.in_progress ChecksStatus.in_progress = true
status_eq ChecksStatus.success ChecksStatus.success = true
status_eq ChecksStatus.failure ChecksStatus.failure = true
status_eq _ _ = false

abbrev pub holds : CiState → RunWork → Bool
holds s r = elim s.best [
  | none ↦ false
  | some best ↦
      r.head == s.head
      && eqb r.run_id best.0
      && eqb r.attempt best.1
      && status_eq s.status (status_of r.conclusion)
      && s.fingerprint == r.fingerprint
]

abbrev pub holds_one : CiState → List RunWork → Bool
holds_one s [] = false
holds_one s (r ∷ rs) = holds s r || holds_one s rs

module _ (r : RunWork) (s : CiState) (ms : List Mail) (p : fold (run_work r) s ≡ some ms) where
  head-assess : (baton s ms).head ≡ s.head
  unfolding fold
  head-assess = ground arith

  Covers-assess : r.head ≡ s.head → Covers (baton s ms).best (baton s ms).status r
  unfolding fold
  Covers-assess h = ground (arith, eq_iff r.head s.head)

  Covers-mono :
      (q : RunWork) → Covers s.best s.status q → Covers (baton s ms).best (baton s ms).status q
  unfolding fold
  Covers-mono q c = ground arith

  holds-assess : (baton s ms ≡ s) ⊎ (holds (baton s ms) r ≡ true)
  unfolding fold
  holds-assess = ground (arith, eq_iff r.head s.head, eq_iff r.fingerprint r.fingerprint)

-- What a run leaves of `s`: the head, evidence as new as any that `s` had, evidence as new as each
-- run observed of that head, and, unless nothing changed, the verdict of one of those runs.
pub record IsNewest (s : CiState) (rs : List RunWork) (t : CiState) : Type 0 where
  pub head : t.head ≡ s.head
  pub monotone : (q : RunWork) → Covers s.best s.status q → Covers t.best t.status q
  pub covers : All (IsCovered t) rs
  pub observed : (t ≡ s) ⊎ (holds_one t rs ≡ true)

held_of :
    (s t u : CiState) (r : RunWork) (rs : List RunWork)
    → (t ≡ s) ⊎ (holds t r ≡ true)
    → (u ≡ t) ⊎ (holds_one u rs ≡ true)
    → (u ≡ s) ⊎ (holds_one u (r ∷ rs) ≡ true)
held_of s t u r rs (inl e) (inl g) = inl (g ∙ e)
held_of s t u r rs (inr h) (inl g) = inr (rw g (rw h refl))
held_of s t u r rs _ (inr g) = inr (rw g (or-true (holds u r)))

-- From a well-formed baton, observing any runs in any order raises nothing and ends with the newest
-- evidence among them and what was held: by run, then attempt, then progress towards a conclusion.
-- Runs of other heads do not count.
pub run-IsNewest :
    (rs : List RunWork) (s : CiState)
    → IsWellFormed s
    → (r : CiState × List Mail) × (run s (map run_work rs) ≡ some r) × IsNewest s rs r.0
unfolding run
run-IsNewest [] s h =
    ((s, []), refl, record { head = refl; monotone = λ q c. c; covers = tt; observed = inl refl })
run-IsNewest (x ∷ rs) s h =
    let (ms, p, h') = fold_total (run_work x) s h in
    let (r, q, n) = run-IsNewest rs (baton s ms) h' in
    (
      (r.0, ms ++ r.1),
      rw (p, run) (rw q refl),
      record {
        head = n.head ∙ head-assess x s ms p;
        monotone = λ y c. n.monotone y (Covers-mono x s ms p y c);
        covers = (
          λ e. n.monotone x (Covers-assess x s ms p (e ∙ n.head ∙ head-assess x s ms p)),
          n.covers,
        );
        observed = held_of s (baton s ms) r.0 x rs (holds-assess x s ms p) n.observed;
      },
    )
