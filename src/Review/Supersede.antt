-- ===== src/Review/Supersede.antt =====
-- A faulted publication that a judged head supersedes: its fault stays in the ledger of readiness.
use hamsterdan.Base.{
  text_differs, ℕ, String, true, false, some, List, [], ◌∷◌, ◌≡◌, ◌≢◌, ◌==◌, eq_iff, arith, refl,
  ap, ◌∙◌, All, Dict, get, get-without, is_some, ◌⧺◌,
}
use mathlib.Core.Path.{subst}
use text.Mathlib.TextLemmas.{append_cancel_left}
use hamsterdan.Colors.{Finding, RoundOpen, Snapshot, Owner, Mail, ready_fault_cleared_facts}
use hamsterdan.Colors.Facts.{FaultClearedFact}
use hamsterdan.Ready.{fault_key, apply_fault_cleared, ready}
use hamsterdan.Review.Protocol.{ReviewPlace, in_round, reviewed, ReviewEvent, answered, fire, run}
use hamsterdan.Review.Spares.{Avoids, EventAvoids, Spares, FiredSpares}
use hamsterdan.Review.Forgets.{judged-FiredSpares, run_after-FiredSpares, run-FiredSpares}

-- readiness' snapshot once it has folded the clearances among the mail
unfoldable pub cleared_by : List Mail → Snapshot → Snapshot
unfolding apply_fault_cleared
cleared_by [] s = s
cleared_by (ready_fault_cleared_facts f ∷ ms) s = cleared_by ms (apply_fault_cleared s f)
cleared_by (_ ∷ ms) s = cleared_by ms s

fault_key-differs :
    (j o : String) → (j == o) ≡ false → fault_key Owner.review j ≢ fault_key Owner.review o
fault_key-differs j o h p =
    text_differs h (append_cancel_left ":" j o (append_cancel_left "review" (":" ⧺ j) (":" ⧺ o) p))

module _ (digest : String → ℕ → String) (o : String) where
  fault_spared :
      (f : FaultClearedFact) (s : Snapshot)
      → (f.owner ≡ Owner.review) × ((f.op == o) ≡ false)
      → get (fault_key Owner.review o) (apply_fault_cleared s f).faults
        ≡ get (fault_key Owner.review o) s.faults
  unfolding apply_fault_cleared
  fault_spared f s h = ground (
    arith,
    get-without (fault_key f.owner f.op) (fault_key Owner.review o) s.faults,
    eq_iff (fault_key f.owner f.op) (fault_key Owner.review o),
    fault_key-differs f.op o h.1,
    h.0,
  )

  faults_spared :
      (ms : List Mail) (s : Snapshot)
      → All (Spares digest o) ms
      → get (fault_key Owner.review o) (cleared_by ms s).faults
        ≡ get (fault_key Owner.review o) s.faults
  unfolding cleared_by
  faults_spared [] s h = refl
  faults_spared (ready_fault_cleared_facts f ∷ ms) s h =
      faults_spared ms (apply_fault_cleared s f) h.1 ∙ fault_spared f s h.0
  faults_spared (m ∷ ms) s h = ground (arith, faults_spared ms s h.1)

  judged-Spares :
      (r : RoundOpen) (fs : List Finding) (lineage : List (Dict String)) (es : List ReviewEvent)
      → Avoids digest o r.head r.incarnation
      → All (EventAvoids digest o) es
      → FiredSpares digest o (run digest (in_round r) (answered (reviewed fs lineage) ∷ es))
  unfolding run fire
  judged-Spares r fs lineage es a s =
      run_after-FiredSpares digest o es (fire digest (in_round r) (answered (reviewed fs lineage)))
        (λ q h. run-FiredSpares digest o es q h s) (judged-FiredSpares digest o r fs lineage a)

faulted_unready : (s : Snapshot) (k : String) → is_some (get k s.faults) ≡ true → ready s ≡ false
unfolding ready get
faulted_unready s k h = ground arith

-- A judged round forgets for good every operation but the publication of its head, that of a faulted
-- publication which the memory retains included. Whatever the run goes on with (answers, recoveries of
-- any operation, dismissals, wakes, a close, and heads whose publication is another operation), it mails
-- readiness no clearance of the fault of that operation: folding all the clearances that it mails leaves
-- that fault in any snapshot as it was, and a snapshot that has it is not ready then.
pub run-superseded :
    (digest : String → ℕ → String) (op : String) (r : RoundOpen) (fs : List Finding)
    (lineage : List (Dict String)) (es : List ReviewEvent) (q : ReviewPlace) (ms : List Mail)
    (s : Snapshot)
    → Avoids digest op r.head r.incarnation
    → All (EventAvoids digest op) es
    → run digest (in_round r) (answered (reviewed fs lineage) ∷ es) ≡ some (q, ms)
    → is_some (get (fault_key Owner.review op) s.faults) ≡ true
    → (get (fault_key Owner.review op) (cleared_by ms s).faults
        ≡ get (fault_key Owner.review op) s.faults)
      × (ready (cleared_by ms s) ≡ false)
run-superseded digest op r fs lineage es q ms s a avoids p f =
    let g = subst (FiredSpares digest op) p (judged-Spares digest op r fs lineage es a avoids) in
    let kept = faults_spared digest op ms s g.1 in
    (kept, faulted_unready (cleared_by ms s) (fault_key Owner.review op) (ap is_some kept ∙ f))
