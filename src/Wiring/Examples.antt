-- ===== src/Wiring/Examples.antt =====
-- A landed recovery of the dashboard, which heals a board that drifted.
use hamsterdan.Base.{String, List, [], ◌∷◌, ◌≡◌, refl}
use hamsterdan.Colors.{Mail, place, route}
use hamsterdan.Dash.{fold_landed}
use hamsterdan.Dash.Wiring.{landed}
use hamsterdan.Wiring.{Firing, dashboard, arcs, sends, sends_are_wired}

abbrev firing : Firing
firing = dashboard (
    landed (record {
      entries = "announced:c1" ∷ [];
      digest = "announced:c1";
      desired_entries = "announced:c1" ∷ "reminder:t1" ∷ [];
      desired_digest = "reminder:t1";
    }))

sends_are_wired_example : route (arcs firing) (sends firing) ≡ sends firing
sends_are_wired_example = sends_are_wired firing

abbrev places : List Mail → List String
places [] = []
places (m ∷ ms) = place m ∷ places ms

test_places : places (sends firing) ≡ "dash.memory" ∷ "startup.published" ∷ "dash.heal" ∷ []
unfolding fold_landed
test_places = refl
