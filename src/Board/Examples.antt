-- ===== src/Board/Examples.antt =====
-- A pull request whose base has moved, under a policy that does not ask for a current base.
use hamsterdan.Base.{
  String, true, false, Option, none, some, [], ◌∷◌, ◌≡◌, ◌==◌, refl, ◌&&◌, if◌then◌else◌, get, put,
}
use hamsterdan.Colors.{
  running, ChecksStatus, ReviewStatus, DashFact, state, checks, human, review_status,
}
use hamsterdan.Ready as Ready
use hamsterdan.Ready.{ready}
use hamsterdan.Board.Facts.{
  BoardFacts, no_facts, distil, take_fact, next_faults, next_mutations, next_human_needed, state_of,
  checks_of, review_fact_of, findings_of, human_of,
}
use hamsterdan.Board.{stale, verdict, open_verdict, gates_verdict}
use hamsterdan.Board.Agreement.{is_all_clear, shown, board_agrees}
use hamsterdan.Host.Review.Request.{clip}

abbrev parse : String → Option DashFact
parse entry =
    if entry == "state"
    then some (
        state (record {
          incarnation = 1;
          body = record {
            phase = running;
            head = "c1";
            base = "b0123456789";
            mergeable = true;
            policy = "p1";
            strict_base = false;
            base_current = false;
          };
        }))
    else if entry == "checks"
    then some (checks (record { incarnation = 1; status = ChecksStatus.success }))
    else if entry == "review"
    then some (
        review_status
          (record { incarnation = 1; head = "c1"; status = ReviewStatus.clear; category = none }))
    else if entry == "human"
    then some (
        human
          (record { incarnation = 1; approval = true; changes_requested = false; unresolved = 0 }))
    else none

abbrev facts : BoardFacts
unfolding distil
facts = distil parse ("state" ∷ "checks" ∷ "review" ∷ "human" ∷ []) no_facts

-- the board asks the author to update the branch
says_stale : verdict facts ≡ stale "b012345"
unfolding facts distil take_fact next_faults next_mutations next_human_needed put state_of checks_of
    review_fact_of findings_of human_of get verdict open_verdict gates_verdict clip
says_stale = refl

-- the readiness loop decides ready
is_ready : ready (shown facts (record Ready.seed { strict_base = false })) ≡ true
unfolding facts distil take_fact next_faults next_mutations next_human_needed put state_of checks_of
    review_fact_of findings_of human_of get ready
is_ready = refl

board_agrees_example :
    is_all_clear (verdict facts)
    ≡ (ready (shown facts (record Ready.seed { strict_base = false })) && false)
unfolding facts distil take_fact next_faults next_mutations next_human_needed put state_of get
board_agrees_example = board_agrees facts (record Ready.seed { strict_base = false }) refl refl refl
