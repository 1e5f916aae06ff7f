-- ===== src/Host/Rerun/Fence.antt =====
-- What a round of the rerun gate posts, and under which authority.
use hamsterdan.Base.{
  ℕ, String, true, false, some, List, [], ◌∷◌, ◌++◌, ◌≡◌, ◌⊎◌, inl, inr, eq_iff, arith, refl, sym,
  Option-cases, Bool-cases, ◌∙◌, ap,
}
use mathlib.Core.Path.{subst}
use hamsterdan.Colors.{RerunReq}
use hamsterdan.Mut.Protocol.{CurrentClaim}
use hamsterdan.Host.Broker.{
  done, Attempt-cases, cut_of, Run, Comment, Reads, marker, find, find_run, issue, issue_fenced,
  post_marker,
}
use hamsterdan.Host.Rerun.{rerun_gate, request_run, expected, claim_eq}

-- the comment that requests the rerun of a run
abbrev pub comment_of : String → RerunReq → Run → Comment
comment_of bot work run = record { login = bot; body = marker run.id run.head work.op }

-- Exactly one comment is posted, for `run`, under the authority that the request claims.
pub record Requests (bot : String) (reads : Reads) (comments : List Comment) (work : RerunReq)
    (after : List Comment) (run : Run) : Type 0 where
  pub posts : after ≡ comments ++ comment_of bot work run ∷ []
  pub not_held : find bot (marker work.run_id work.head work.op) comments ≡ false
  pub not_posted : find bot (marker run.id run.head work.op) comments ≡ false
  pub current : reads.claim ≡ done (expected work)
  pub head : reads.pull_head ≡ done run.head
  pub indicted : run.id ≡ work.run_id
  pub fenced : reads.fence ≡ done tt

abbrev pub PostsFenced : String → Reads → List Comment → RerunReq → List Comment → Type 0
PostsFenced bot reads comments work after =
    (after ≡ comments) ⊎ ((run : Run) × Requests bot reads comments work after run)

pub claim_eq-eq : (a b : CurrentClaim) → claim_eq a b ≡ true → a ≡ b
claim_eq-eq a b h =
    ground (arith, eq_iff a.head b.head, eq_iff a.base b.base, eq_iff a.policy b.policy)

find_run-id : (n : ℕ) (rs : List Run) (r : Run) → find_run n rs ≡ some r → r.id ≡ n
unfolding find_run
find_run-id n [] r p = cc
find_run-id n (s ∷ rs) r p = ground (arith, find_run-id n rs r)

abbrev Issues : String → Reads → List Comment → RerunReq → Run → List Comment → Type 0
Issues bot reads comments work run after =
    (after ≡ comments)
    ⊎ ((after ≡ comments ++ comment_of bot work run ∷ [])
        × (find bot (marker run.id run.head work.op) comments ≡ false)
        × (reads.pull_head ≡ done run.head)
        × (reads.fence ≡ done tt))

abbrev IssuesFenced : String → Reads → List Comment → String → List Comment → Type 0
IssuesFenced bot reads comments m after =
    (after ≡ comments)
    ⊎ ((after ≡ comments ++ record { login = bot; body = m } ∷ [])
        × (find bot m comments ≡ false)
        × (reads.fence ≡ done tt))

fenced_posts :
    (bot : String) (reads : Reads) (comments : List Comment) (m : String) (cut : ℕ × ℕ)
    → IssuesFenced bot reads comments m (issue_fenced bot reads comments m cut).1
unfolding issue_fenced post_marker
fenced_posts bot reads comments m cut = ground arith

issue_posts :
    (bot : String) (reads : Reads) (comments : List Comment) (work : RerunReq) (run : Run)
    → Issues bot reads comments work run (issue bot reads comments run work.op).1
unfolding issue
issue_posts bot reads comments work run = elim (Attempt-cases reads.pull_head) [
  | inl (e, p) ↦ ground arith
  | inr (head, p) ↦ elim (Attempt-cases (reads.workflow_runs run.workflow head)) [
    | inl (e, q) ↦ ground arith
    | inr (known, q) ↦ ground (
      arith,
      eq_iff head run.head,
      fenced_posts bot reads comments (marker run.id run.head work.op) (cut_of known),
    )
  ]
]

run_posts :
    (bot : String) (reads : Reads) (comments : List Comment) (work : RerunReq)
    → find bot (marker work.run_id work.head work.op) comments ≡ false
    → reads.claim ≡ done (expected work)
    → PostsFenced bot reads comments work (request_run bot reads comments work).1
unfolding request_run
run_posts bot reads comments work h c = elim (Attempt-cases (reads.runs work.head)) [
  | inl (e, p) ↦ rw (p, request_run) (inl refl)
  | inr (reported, p) ↦ elim (Option-cases (find_run work.run_id reported)) [
    | inl q ↦ rw (p, request_run) (rw q (inl refl))
    | inr (run, q) ↦
        rw (p, request_run)
          (rw q (
            requests run (find_run-id work.run_id reported run q)
              (issue_posts bot reads comments work run)))
  ]
]
  where
    requests :
        {after : List Comment} (run : Run)
        → run.id ≡ work.run_id
        → Issues bot reads comments work run after
        → PostsFenced bot reads comments work after
    requests run i (inl e) = inl e
    requests run i (inr (posts, fresh, head, fenced)) = inr (
      run,
      record {
        posts = posts;
        not_held = h;
        not_posted = fresh;
        current = c;
        head = head;
        indicted = i;
        fenced = fenced;
      },
    )

-- past the lookup and the claim, the gate requests the run
pub gate-request_run :
    (bot : String) (reads : Reads) (comments : List Comment) (work : RerunReq) (u : Unit)
    (current : CurrentClaim)
    → reads.lookup ≡ done u
    → find bot (marker work.run_id work.head work.op) comments ≡ false
    → reads.claim ≡ done current
    → claim_eq current (expected work) ≡ true
    → rerun_gate bot reads comments work ≡ request_run bot reads comments work
unfolding rerun_gate
gate-request_run bot reads comments work u current p q c k = ground arith

-- Whatever the provider and the host answer, a round of the rerun gate leaves the comments as they are,
-- or posts exactly one: the marker of the indicted run, on the pull request's head. It posts only if
-- neither the request's marker nor that one is there, the claim read equals the request's authority in
-- every field with the pull request running, and the publication fence lets it through.
pub gate-PostsFenced :
    (bot : String) (reads : Reads) (comments : List Comment) (work : RerunReq)
    → PostsFenced bot reads comments work (rerun_gate bot reads comments work).1
unfolding rerun_gate
gate-PostsFenced bot reads comments work = elim (Attempt-cases reads.lookup) [
  | inl (e, p) ↦ rw (p, rerun_gate) (inl refl)
  | inr (u, p) ↦ elim (Bool-cases (find bot (marker work.run_id work.head work.op) comments)) [
    | inl q ↦ rw (p, rerun_gate) (rw q (inl refl))
    | inr q ↦ elim (Attempt-cases reads.claim) [
      | inl (e, c) ↦ rw (p, rerun_gate) (rw (q, c) (inl refl))
      | inr (current, c) ↦ elim (Bool-cases (claim_eq current (expected work))) [
        | inl k ↦
            subst (λ r. PostsFenced bot reads comments work r.1)
              (sym (gate-request_run bot reads comments work u current p q c k))
              (run_posts bot reads comments work q
                (c ∙ ap done (claim_eq-eq current (expected work) k)))
        | inr k ↦ rw (p, rerun_gate) (rw (q, c, k) (inl refl))
      ]
    ]
  ]
]
