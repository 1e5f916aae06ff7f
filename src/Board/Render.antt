-- ===== src/Board/Render.antt =====
-- The text of the board, and its facts as data.
use hamsterdan.Base.{
  String, Bool, not, ◌||◌, Option, none, some, is_some, List, [], ◌∷◌, ◌++◌, ◌==◌, eqb,
  if◌then◌else◌, ◌⧺◌, decimal, Dict,
}
use hamsterdan.Colors.{
  ChecksStatus, ReviewStatus, MutationPendingFact, DashFact, human_needed, mutation_pending,
}
use hamsterdan.Board.Facts.{
  BoardFacts, Attention, no_facts, short, distil, head_of, base_of, is_base_current, is_mergeable,
  checks_of, review_of, findings_of, blocking_of, count_of, human_of, approval_of,
  is_changes_requested, unresolved_of, category_or_empty,
}
use hamsterdan.Board.{
  Verdict, closed, parked, faulted, exhausted, working, failing, blocked, unable, changes,
  unresolved, stale, conflict, checking, reviewing, unapproved, all_clear, is_unable, verdict,
}

abbrev tick : String → String
tick s = "`" ⧺ s ⧺ "`"

-- the texts of `_verdict`
abbrev pub verdict_text : Verdict → String
verdict_text closed = "closed — this board is frozen."
verdict_text parked = "paused — draft PR. I resume when it leaves draft."
verdict_text (faulted op reason) =
    "⚠\u{fe0f} needs attention — operation "
    ⧺ tick op
    ⧺ " faulted: "
    ⧺ reason
    ⧺ ". Ask me to recover it."
verdict_text (exhausted head) =
    "❌ CI keeps failing on "
    ⧺ tick head
    ⧺ " — automated reruns are exhausted. **A human needs to look.**"
verdict_text (working head) = "🔧 working — I'm pushing an update to " ⧺ tick head ⧺ "."
verdict_text (failing head) =
    "❌ CI failed for " ⧺ tick head ⧺ ". **Author:** fix and push; I re-evaluate the new head."
verdict_text (blocked blocking count head) =
    "❌ "
    ⧺ decimal blocking
    ⧺ " blocking finding(s) of "
    ⧺ decimal count
    ⧺ " on "
    ⧺ tick head
    ⧺ ". **Author:** see the review findings."
verdict_text (unable head category) =
    "⚠\u{fe0f} I could not review "
    ⧺ tick head
    ⧺ " ("
    ⧺ category
    ⧺ "). Push a new head or ask me to retry."
verdict_text (changes head) =
    "waiting on author — a reviewer requested changes on " ⧺ tick head ⧺ "."
verdict_text (unresolved threads head) =
    "waiting on humans — " ⧺ decimal threads ⧺ " unresolved review thread(s) on " ⧺ tick head ⧺ "."
verdict_text (stale base) =
    "⚠\u{fe0f} base is stale — the target branch moved past "
    ⧺ tick base
    ⧺ ". **Author:** update the branch."
verdict_text (conflict head) =
    "❌ merge conflict on " ⧺ tick head ⧺ ". **Author:** resolve and push."
verdict_text (checking head) = "⏳ waiting on CI for " ⧺ tick head ⧺ ". Nothing for you to do."
verdict_text (reviewing head) = "⏳ reviewing " ⧺ tick head ⧺ ". Nothing for you to do."
verdict_text (unapproved head) =
    "waiting on human approval for " ⧺ tick head ⧺ " — everything on my side is clear."
verdict_text (all_clear head) =
    "✅ all gates clear for " ⧺ tick head ⧺ " — see the readiness advisory. Merging stays yours."

-- `_CHECKS_CELL`
abbrev pub checks_cell : ChecksStatus → String
checks_cell ChecksStatus.pending = "⏳ not started"
checks_cell ChecksStatus.queued = "⏳ queued"
checks_cell ChecksStatus.in_progress = "⏳ in progress"
checks_cell ChecksStatus.success = "✅ success"
checks_cell ChecksStatus.failure = "❌ failing"

-- `_REVIEW_CELL`
abbrev pub status_cell : ReviewStatus → String
status_cell ReviewStatus.pending = "⏳ reviewing"
status_cell ReviewStatus.clear = "✅ clear"
status_cell ReviewStatus.blocking = "❌ blocking"
status_cell ReviewStatus.unable = "⚠\u{fe0f} unable"

-- the cell of a review that was not possible
abbrev pub unable_cell : String → String → String
unable_cell cell category =
    if category == "" || category == "unable" then cell else cell ⧺ " · " ⧺ category

-- the cell with the findings, if they are there
abbrev pub counted_cell : String → BoardFacts → String
counted_cell cell facts =
    if not (is_some (findings_of facts))
    then cell
    else if eqb (count_of facts) 0
    then cell ⧺ " · 0 findings"
    else cell
      ⧺ " · "
      ⧺ decimal (blocking_of facts)
      ⧺ " blocking of "
      ⧺ decimal (count_of facts)
      ⧺ " finding(s)"

-- `_review_cell`
unfoldable pub review_cell : BoardFacts → String
review_cell facts =
    let cell = status_cell (review_of facts) in
    if is_unable (review_of facts)
    then unable_cell cell (category_or_empty facts)
    else counted_cell cell facts

-- `_human_cell`
unfoldable pub human_cell : BoardFacts → String
human_cell facts =
    if not (is_some (human_of facts))
    then "⏳ no review yet"
    else (if is_changes_requested facts
        then "❌ changes requested"
        else if approval_of facts
        then "✅ approved"
        else "⏳ not approved")
      ⧺ " · "
      ⧺ decimal (unresolved_of facts)
      ⧺ " unresolved thread(s)"

-- `_rows`
unfoldable pub rows : BoardFacts → List (String × String)
unfolding review_cell human_cell
rows facts =
    ("CI checks", checks_cell (checks_of facts))
    ∷ ("Dan's review", review_cell facts)
    ∷ ("Human review", human_cell facts)
    ∷ (
      "Base",
      if is_base_current facts
          then "✅ current with " ⧺ tick (short (base_of facts))
          else "⚠\u{fe0f} behind " ⧺ tick (short (base_of facts)),
    )
    ∷ ("Conflicts", if is_mergeable facts then "✅ none" else "❌ merge conflict")
    ∷ []

abbrev fault_lines : List Attention → List String
fault_lines [] = []
fault_lines (a ∷ as') =
    ("- ⚠\u{fe0f} "
      ⧺ a.owner
      ⧺ " operation "
      ⧺ tick a.op
      ⧺ " faulted: "
      ⧺ a.reason
      ⧺ " — ask me to recover it.")
    ∷ fault_lines as'

abbrev push_lines : Dict MutationPendingFact → List String
push_lines [] = []
push_lines ((k, f) ∷ ms) = ("- 🔧 push in flight: " ⧺ tick f.op ⧺ ".") ∷ push_lines ms

abbrev human_lines : Option DashFact → List String
human_lines (some (human_needed incarnation fingerprint head is_rerun)) =
    ("- ❌ CI failure "
      ⧺ tick (short fingerprint)
      ⧺ " exhausted automated reruns — a human needs to look.")
    ∷ []
human_lines _ = []

abbrev unparsed_lines : List String → List String
unparsed_lines [] = []
unparsed_lines (entry ∷ entries) =
    ("- ⚠\u{fe0f} unrecognized: " ⧺ tick entry) ∷ unparsed_lines entries

-- `_attention`
unfoldable pub attention_lines : BoardFacts → List String
attention_lines facts =
    fault_lines facts.faults
    ++ push_lines facts.mutations
    ++ human_lines facts.human_needed
    ++ unparsed_lines facts.unparsed

-- `separator.join(texts)`
unfoldable pub join : String → List String → String
join separator [] = ""
join separator (s ∷ []) = s
join separator (s ∷ t ∷ ts) = s ⧺ separator ⧺ join separator (t ∷ ts)

abbrev row_lines : List (String × String) → List String
row_lines [] = []
row_lines ((gate, cell) ∷ rs) = ("| " ⧺ gate ⧺ " | " ⧺ cell ⧺ " |") ∷ row_lines rs

abbrev pub attention_section : List String → List String
unfolding join
attention_section [] = []
attention_section (l ∷ ls) = join "\n" (l ∷ ls) ∷ []

abbrev pub head_section : BoardFacts → List String
head_section facts =
    if head_of facts == ""
    then []
    else ("<sub>head " ⧺ head_of facts ⧺ " on base " ⧺ base_of facts ⧺ "</sub>") ∷ []

-- `render_board`
unfoldable pub render_board : (String → Option DashFact) → List String → String
unfolding distil verdict rows attention_lines join attention_section
render_board parse entries =
    let facts = distil parse entries no_facts in
    join "\n\n" (
      ("## Hamsterdan summary — " ⧺ verdict_text (verdict facts))
        ∷ ("| Gate | State |\n|------|-------|\n" ⧺ join "\n" (row_lines (rows facts)))
        ∷ attention_section (attention_lines facts)
      ++ head_section facts)

-- `derived`
abbrev pub is_derived : String → Bool
is_derived kind =
    kind == "fault"
    || kind == "mutation_pending"
    || kind == "mutation_settled"
    || kind == "human_needed"

abbrev pub settled_facts : Dict DashFact → List DashFact
settled_facts [] = []
settled_facts ((kind, f) ∷ fs) =
    let rest = settled_facts fs in if is_derived kind then rest else f ∷ rest

abbrev pub fault_bodies : List Attention → List DashFact
fault_bodies [] = []
fault_bodies (a ∷ as') = a.body ∷ fault_bodies as'

abbrev pub push_bodies : Dict MutationPendingFact → List DashFact
push_bodies [] = []
push_bodies ((k, f) ∷ ms) = mutation_pending f ∷ push_bodies ms

abbrev pub human_body : Option DashFact → List DashFact
human_body none = []
human_body (some f) = f ∷ []

-- `gate_facts`
unfoldable pub gate_facts : (String → Option DashFact) → List String → List DashFact
unfolding distil
gate_facts parse entries =
    let facts = distil parse entries no_facts in
    settled_facts facts.latest
    ++ fault_bodies facts.faults
    ++ push_bodies facts.mutations
    ++ human_body facts.human_needed
