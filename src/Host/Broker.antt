-- ===== src/Host/Broker.antt =====
-- CommentRerunBroker of src/hamsterdan/github_app/effects.py: a rerun is requested by a comment that
-- holds its marker. What the provider answers to a read is a parameter; the comments are the state.
use Prim.Native.String.{String}
use hamsterdan.Base.{
  ℕ, Bool, true, false, not, ◌&&◌, ◌||◌, Option, none, some, List, [], ◌∷◌, ◌++◌, ◌==◌, ◌≡◌, ◌⊎◌,
  inl, inr, refl, eqb, pair_max, if◌then◌else◌, ◌⧺◌, decimal,
}
use hamsterdan.Mut.Protocol.{CurrentClaim}

-- what a call returns, or the reason of the exception that the gate catches
pub data Attempt {ℓ} (A : Type ℓ) : Type ℓ where
  done : A → Attempt A
  failed : String → Attempt A

pub Attempt-cases {ℓ} :
    {A : Type ℓ} (a : Attempt A) → ((e : String) × (a ≡ failed e)) ⊎ ((x : A) × (a ≡ done x))
Attempt-cases (done x) = inr (x, refl)
Attempt-cases (failed e) = inl (e, refl)

-- the fields of ActionsRunSnapshot that are read
pub record Run : Type 0 where
  pub id : ℕ
  pub head : String
  pub workflow : String
  pub attempt : ℕ

-- the fields of PublicationResult that are read
pub record PublicationResult : Type 0 where
  pub status : String
  pub capability_available : Bool

pub record RerunIssue : Type 0 where
  pub result : PublicationResult
  pub cut_run_id : ℕ
  pub cut_attempt : ℕ

-- RerunRefusedError is `refused`, any other exception `raised`
pub data IssueOutcome : Type 0 where
  issued : RerunIssue → IssueOutcome
  refused : IssueOutcome
  raised : String → IssueOutcome

pub record Comment : Type 0 where
  pub login : String
  pub body : String

-- Whether a POST lands and is proven; an unproven one may have landed.
pub data PostOutcome : Type 0 where
  created : PostOutcome
  unproven : String → PostOutcome
  lost : String → PostOutcome

-- What the provider and the host answer in one round of the gate.
pub record Reads : Type 0 where
  pub lookup : Attempt (Unit {0})
  pub claim : Attempt CurrentClaim
  pub runs : String → Attempt (List Run)
  pub pull_head : Attempt String
  pub workflow_runs : String → String → Attempt (List Run)
  pub listing : Attempt (Unit {0})
  pub fence : Attempt (Unit {0})
  pub post : PostOutcome

-- `marker`
abbrev pub marker : ℕ → String → String → String
marker run_id head operation =
    "<!-- hamsterdan-rerun run="
    ⧺ decimal run_id
    ⧺ " head="
    ⧺ head
    ⧺ " operation="
    ⧺ operation
    ⧺ " -->"

-- `str.endswith`
unfoldable pub ends_with : String → String → Bool
ends_with t String.[] = String.[] == t
ends_with t (String.◌∷◌ c s) = let rest = ends_with t s in String.◌∷◌ c s == t || rest

-- `_final_marker`
abbrev pub final_marker : String → String → Bool
final_marker body m = body == m || ends_with ("\n\n" ⧺ m) body

-- `_find`: whether a comment of the bot ends in the marker
unfoldable pub find : String → String → List Comment → Bool
find bot m [] = false
find bot m (c ∷ cs) = (c.login == bot && final_marker c.body m) || find bot m cs

-- `held`: `true` for a result
abbrev pub held : String → Reads → List Comment → ℕ → String → String → Attempt Bool
held bot reads comments run_id head operation = elim reads.lookup [
  | failed e ↦ failed e
  | done u ↦ done (find bot (marker run_id head operation) comments)
]

-- `next(candidate for candidate in runs if candidate.id == run_id)`
unfoldable pub find_run : ℕ → List Run → Option Run
find_run n [] = none
find_run n (r ∷ rs) = if eqb r.id n then some r else find_run n rs

abbrev pub has_run : ℕ → List Run → Bool
has_run n [] = false
has_run n (r ∷ rs) = eqb r.id n || has_run n rs

-- the newest identity among the runs
abbrev pub cut_of : List Run → ℕ × ℕ
cut_of [] = (0, 0)
cut_of (r ∷ rs) = pair_max (r.id, r.attempt) (cut_of rs)

abbrev pub issue_of : String → ℕ × ℕ → RerunIssue
issue_of status cut = record {
  result = record { status = status; capability_available = true };
  cut_run_id = cut.0;
  cut_attempt = cut.1;
}

-- the request itself, behind the fence
unfoldable pub post_marker :
    String → Reads → List Comment → String → ℕ × ℕ → IssueOutcome × List Comment
post_marker bot reads comments m cut = elim reads.post [
  | created ↦ (issued (issue_of "requested" cut), comments ++ record { login = bot; body = m } ∷ [])
  | unproven e ↦ (raised e, comments ++ record { login = bot; body = m } ∷ [])
  | lost e ↦ (raised e, comments)
]

-- from the second lookup on
unfoldable pub issue_fenced :
    String → Reads → List Comment → String → ℕ × ℕ → IssueOutcome × List Comment
unfolding post_marker
issue_fenced bot reads comments m cut = elim reads.listing [
  | failed e ↦ (raised e, comments)
  | done u ↦
      if find bot m comments
      then (issued (issue_of "existing" cut), comments)
      else elim reads.fence [
        | failed e ↦ (raised e, comments)
        | done v ↦ post_marker bot reads comments m cut
      ]
]

-- `issue`
unfoldable pub issue : String → Reads → List Comment → Run → String → IssueOutcome × List Comment
unfolding issue_fenced
issue bot reads comments run operation = elim reads.pull_head [
  | failed e ↦ (raised e, comments)
  | done head ↦ elim (reads.workflow_runs run.workflow head) [
    | failed e ↦ (raised e, comments)
    | done known ↦
        if not (head == run.head) || not (has_run run.id known)
        then (refused, comments)
        else issue_fenced bot reads comments (marker run.id run.head operation) (cut_of known)
  ]
]
