-- ===== src/Dash/Examples.antt =====
-- An upsert that faults while the board drifts away and back, its recovery, and the heal.
use hamsterdan.Base.{String, none, List, [], ◌∷◌, ◌≡◌, refl}
use hamsterdan.Colors.{DashFact, announced, reminder, DashMemory}
use hamsterdan.Dash.{Repr}
use hamsterdan.Dash.Protocol.{
  at_rest, DashEvent, observed, landed, faulted, recovered, healed, final,
}
use hamsterdan.Dash.Projection.{live, log_of, take_inputs, inputs, dashboard_refines}
use hamsterdan.Dash.Board.{start, board_converges}

-- a `repr` for a test: the text of the fact
abbrev text_of : DashFact → String
text_of (announced i head) = head
text_of (reminder id) = id
text_of _ = "fact"

abbrev repr : Repr
repr = record { items = text_of; body = text_of }

abbrev round : List DashEvent
round =
    observed (announced 1 "c1")
    ∷ faulted "HTTP 502"
    ∷ observed (reminder "t1")
    ∷ observed (announced 1 "c1")
    ∷ recovered (record { target = "dashboard"; op = "dash:announced:c1" })
    ∷ landed
    ∷ healed 0
    ∷ landed
    ∷ []

abbrev log : List String
log = "announced:c1" ∷ "reminder:t1" ∷ "announced:c1" ∷ []

abbrev memory : DashMemory
memory = record {
  entries = log;
  digest = "announced:c1";
  landed = "announced:c1";
  blocked = none;
  faulted = none;
}

test_place : (final repr start round).place ≡ at_rest memory
unfolding final
test_place = refl

test_pokes : (final repr start round).pokes ≡ []
unfolding final
test_pokes = refl

dashboard_refines_example :
    log_of (final repr start round).place ≡ take_inputs repr (inputs repr start round) (live [] "")
dashboard_refines_example = dashboard_refines repr start round

board_converges_example :
    live (final repr start round).shown.0 (final repr start round).shown.1
    ≡ take_inputs repr (inputs repr start round) (live [] "")
board_converges_example =
    board_converges repr round memory (tt, (tt, (tt, (tt, (tt, (tt, (tt, (tt, tt)))))))) test_place
      refl test_pokes
