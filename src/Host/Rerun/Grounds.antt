-- ===== src/Host/Rerun/Grounds.antt =====
-- What the provider and the host answered when the rerun gate reports a terminal.
use hamsterdan.Base.{
  text_equal, text_differs, String, true, false, none, some, List, ◌≡◌, ◌≢◌, ◌==◌, ◌⧺◌, inl, inr,
  refl, eq_iff, arith, ap, sym, ◌∙◌, Bool-cases, Option-cases,
}
use mathlib.Core.Path.{subst}
use hamsterdan.Colors.{RerunReq, Disposition}
use hamsterdan.Mut.Protocol.{CurrentClaim}
use hamsterdan.Esc.Protocol.{
  EscEvent, landed as landed_event, moved as moved_event, faulted as faulted_event,
}
use hamsterdan.Host.Broker.{
  done, failed, Attempt-cases, Comment, Reads, Run, RerunIssue, IssueOutcome, issued, refused,
  raised, issue, find, marker, find_run,
}
use hamsterdan.Host.Rerun.{
  RerunAnswer, landed, moved, faulted, rerun_gate, request_run, answer_issue, classify, claim_eq,
  expected,
}
use hamsterdan.Host.Rerun.Fence.{claim_eq-eq, gate-request_run}

-- the event of the ladder's protocol that the answer is
abbrev pub event_of : RerunAnswer → EscEvent
event_of (landed l) = landed_event l.disposition l.cut_run_id l.cut_attempt
event_of (moved m) = moved_event
event_of (faulted f) = faulted_event f.reason

claim_eq_refl : (c : CurrentClaim) → claim_eq c c ≡ true
claim_eq_refl c =
    ground (arith, eq_iff c.head c.head, eq_iff c.base c.base, eq_iff c.policy c.policy)

true-ne-false : true ≡ false → ⊥
true-ne-false q = cc

pub claim_eq-differs : (a b : CurrentClaim) → claim_eq a b ≡ false → a ≢ b
claim_eq-differs a b h p =
    absurd (true-ne-false (sym (claim_eq_refl b) ∙ ap (λ c. claim_eq c b) (sym p) ∙ h))

module _ (bot : String) (reads : Reads) (comments : List Comment) (work : RerunReq) where
  -- the comments were read, and the request's marker is not among them
  abbrev pub Unmarked : Type 0
  Unmarked =
      (reads.lookup ≡ done tt) × (find bot (marker work.run_id work.head work.op) comments ≡ false)

  -- and the claim read was the request's
  abbrev pub Admitted : Type 0
  Admitted = Unmarked × (reads.claim ≡ done (expected work))

  -- the broker was asked for the indicted run, with this outcome
  abbrev pub Asked : IssueOutcome → Type 0
  Asked o =
      (run : Run) × (reported : List Run) × Admitted
      × (reads.runs work.head ≡ done reported)
      × (find_run work.run_id reported ≡ some run)
      × ((issue bot reads comments run work.op).0 ≡ o)

  -- what the provider and the host must have answered for an event of the ladder's protocol
  pub data Grounds : EscEvent → Type 0 where
    marked :
        reads.lookup ≡ done tt
        → find bot (marker work.run_id work.head work.op) comments ≡ true
        → Grounds (landed_event Disposition.existing work.run_id work.attempt)
    posted :
        (i : RerunIssue)
        → Asked (issued i)
        → i.result.capability_available ≡ true
        → i.result.status ≡ "existing"
        → Grounds (landed_event Disposition.existing work.run_id work.attempt)
    requested :
        (i : RerunIssue)
        → Asked (issued i)
        → i.result.capability_available ≡ true
        → i.result.status ≡ "requested"
        → Grounds (landed_event Disposition.requested i.cut_run_id i.cut_attempt)
    stale :
        (c : CurrentClaim)
        → Unmarked
        → reads.claim ≡ done c
        → c ≢ expected work
        → Grounds moved_event
    gone :
        (reported : List Run)
        → Admitted
        → reads.runs work.head ≡ done reported
        → find_run work.run_id reported ≡ none
        → Grounds moved_event
    declined : Asked refused → Grounds moved_event
    unread : (reason : String) → reads.lookup ≡ failed reason → Grounds (faulted_event reason)
    unclaimed :
        (reason : String) → Unmarked → reads.claim ≡ failed reason → Grounds (faulted_event reason)
    unreported :
        (reason : String)
        → Admitted
        → reads.runs work.head ≡ failed reason
        → Grounds (faulted_event reason)
    unissued : (reason : String) → Asked (raised reason) → Grounds (faulted_event reason)
    incapable :
        (i : RerunIssue)
        → Asked (issued i)
        → i.result.capability_available ≡ false
        → Grounds (faulted_event "the provider proved it cannot publish the rerun request")
    unclassified :
        (i : RerunIssue)
        → Asked (issued i)
        → i.result.capability_available ≡ true
        → i.result.status ≢ "existing"
        → i.result.status ≢ "requested"
        → Grounds (faulted_event ("unclassified rerun status '" ⧺ i.result.status ⧺ "'"))

  -- the event that is grounded is the one that the answer is
  grounded : (a : RerunAnswer) (e : EscEvent) → event_of a ≡ e → Grounds e → Grounds (event_of a)
  grounded a e p g = subst Grounds (sym p) g

  classify-Grounds : (i : RerunIssue) → Asked (issued i) → Grounds (event_of (classify work i))
  classify-Grounds i h = elim (Bool-cases i.result.capability_available) [
    | inr c ↦
        grounded (classify work i)
          (faulted_event "the provider proved it cannot publish the rerun request") (rw c refl)
          (incapable i h c)
    | inl c ↦ elim (Bool-cases (i.result.status == "existing")) [
      | inl s ↦
          grounded (classify work i) (landed_event Disposition.existing work.run_id work.attempt)
            (rw (c, s) refl) (posted i h c (text_equal s))
      | inr s ↦ elim (Bool-cases (i.result.status == "requested")) [
        | inl t ↦
            grounded (classify work i)
              (landed_event Disposition.requested i.cut_run_id i.cut_attempt) (rw (c, s, t) refl)
              (requested i h c (text_equal t))
        | inr t ↦
            grounded (classify work i)
              (faulted_event ("unclassified rerun status '" ⧺ i.result.status ⧺ "'"))
              (rw (c, s, t) refl) (unclassified i h c (text_differs s) (text_differs t))
      ]
    ]
  ]

  issue-Grounds : (o : IssueOutcome) → Asked o → Grounds (event_of (answer_issue work o))
  issue-Grounds (issued i) h = classify-Grounds i h
  issue-Grounds refused h = declined h
  issue-Grounds (raised e) h = unissued e h

  run-Grounds : Admitted → Grounds (event_of (request_run bot reads comments work).0)
  unfolding request_run
  run-Grounds h = elim (Attempt-cases (reads.runs work.head)) [
    | inl (e, p) ↦
        grounded (request_run bot reads comments work).0 (faulted_event e)
          (rw (p, request_run) refl) (unreported e h p)
    | inr (reported, p) ↦ elim (Option-cases (find_run work.run_id reported)) [
      | inl q ↦
          grounded (request_run bot reads comments work).0 moved_event
            (rw (p, request_run) (rw q refl)) (gone reported h p q)
      | inr (run, q) ↦
          let o = (issue bot reads comments run work.op).0 in
          grounded (request_run bot reads comments work).0 (event_of (answer_issue work o))
            (rw (p, request_run) (rw q refl)) (issue-Grounds o (run, reported, h, p, q, refl))
    ]
  ]

  pub gate-Grounds : Grounds (event_of (rerun_gate bot reads comments work).0)
  unfolding rerun_gate
  gate-Grounds = elim (Attempt-cases reads.lookup) [
    | inl (e, p) ↦
        grounded (rerun_gate bot reads comments work).0 (faulted_event e) (rw (p, rerun_gate) refl)
          (unread e p)
    | inr (u, p) ↦ elim (Bool-cases (find bot (marker work.run_id work.head work.op) comments)) [
      | inl q ↦
          grounded (rerun_gate bot reads comments work).0
            (landed_event Disposition.existing work.run_id work.attempt)
            (rw (p, rerun_gate) (rw q refl)) (marked p q)
      | inr q ↦ elim (Attempt-cases reads.claim) [
        | inl (e, c) ↦
            grounded (rerun_gate bot reads comments work).0 (faulted_event e)
              (rw (p, rerun_gate) (rw (q, c) refl)) (unclaimed e (p, q) c)
        | inr (current, c) ↦ elim (Bool-cases (claim_eq current (expected work))) [
          | inl k ↦
              grounded (rerun_gate bot reads comments work).0
                (event_of (request_run bot reads comments work).0)
                (ap (λ r. event_of r.0)
                  (gate-request_run bot reads comments work u current p q c k))
                (run-Grounds ((p, q), c ∙ ap done (claim_eq-eq current (expected work) k)))
          | inr k ↦
              grounded (rerun_gate bot reads comments work).0 moved_event
                (rw (p, rerun_gate) (rw (q, c, k) refl))
                (stale current (p, q) c (claim_eq-differs current (expected work) k))
        ]
      ]
    ]
  ]
