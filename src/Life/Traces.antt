-- ===== src/Life/Traces.antt =====
-- Runs of the lifecycle loop: the baton that a fold mails is bound by the next one.
use hamsterdan.Base.{List, [], ◌∷◌, ◌++◌, ◌≡◌, arith}
use hamsterdan.Colors.{LifeState, Mail, life_state}
use hamsterdan.Life.{LifeEvent, fold}

-- the batons among the tokens
abbrev pub batons : List Mail → List LifeState
batons [] = []
batons (life_state s ∷ ms) = s ∷ batons ms
batons (_ ∷ ms) = batons ms

abbrev pub head_or : LifeState → List LifeState → LifeState
head_or s [] = s
head_or s (t ∷ _) = t

-- the baton after a transition
unfoldable pub next : LifeEvent → LifeState → LifeState
unfolding fold
next e s = head_or s (batons (fold e s))

-- Every transition gives back exactly one baton.
pub batons-fold : (e : LifeEvent) (s : LifeState) → batons (fold e s) ≡ next e s ∷ []
unfolding next
batons-fold e s = ground arith

unfoldable pub final : LifeState → List LifeEvent → LifeState
final s [] = s
final s (e ∷ es) = final (next e s) es

-- all that a run mails, in order
unfoldable pub mailed : LifeState → List LifeEvent → List Mail
mailed s [] = []
mailed s (e ∷ es) = fold e s ++ mailed (next e s) es
