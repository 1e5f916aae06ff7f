-- ===== src/Wiring.antt =====
-- Every transition of the modelled loops with its output arcs (`wire` of each loop, and `route` of
-- src/hamsterdan/readiness/net_v5/folding.py).
mod Examples
use hamsterdan.Base.{String, List, [], ◌∷◌, ◌≡◌, refl}
use hamsterdan.Colors.{LifeState, CiState, CiEnded, EscMoved, CloseFact, Mail, route, sent}
use hamsterdan.Life.{LifeEvent}
use hamsterdan.Ci.{CiEvent}
use hamsterdan.Ci
use hamsterdan.Life
use hamsterdan.Life.Wiring as LifeWiring
use hamsterdan.Ci.Wiring as CiWiring
use hamsterdan.Esc.Wiring as EscWiring
use hamsterdan.Mut.Wiring as MutWiring
use hamsterdan.Ready.Wiring as ReadyWiring
use hamsterdan.Rem.Wiring as RemWiring
use hamsterdan.Dash.Wiring as DashWiring
use hamsterdan.Conv.Wiring as ConvWiring
use hamsterdan.Review.Wiring as ReviewWiring
use hamsterdan.Esc.Wiring.{EscFiring}
use hamsterdan.Mut.Wiring.{MutFiring}
use hamsterdan.Ready.Wiring.{ReadyFiring}
use hamsterdan.Rem.Wiring.{RemFiring}
use hamsterdan.Dash.Wiring.{DashFiring}
use hamsterdan.Conv.Wiring.{ConvFiring}
use hamsterdan.Review.Wiring.{ReviewFiring}

-- a transition of a loop, with the tokens that it binds
pub data Firing : Type 0 where
  lifecycle : LifeEvent → LifeState → Firing
  ci : CiEvent → CiState → Firing
  ci_end : CloseFact → CiState → Firing
  ci_drain : EscMoved → CiEnded → Firing
  escalation : EscFiring → Firing
  mutation : MutFiring → Firing
  readiness : ReadyFiring → Firing
  reminders : RemFiring → Firing
  dashboard : DashFiring → Firing
  conversation : ConvFiring → Firing
  review : ReviewFiring → Firing

-- its output arcs
abbrev pub arcs : Firing → List String
arcs (lifecycle e s) = LifeWiring.arcs e
arcs (ci e s) = CiWiring.arcs e
arcs (ci_end c s) = "ci.done" ∷ []
arcs (ci_drain m x) = "ci.done" ∷ []
arcs (escalation f) = EscWiring.arcs f
arcs (mutation f) = MutWiring.arcs f
arcs (readiness f) = ReadyWiring.arcs f
arcs (reminders f) = RemWiring.arcs f
arcs (dashboard f) = DashWiring.arcs f
arcs (conversation f) = ConvWiring.arcs f
arcs (review f) = ReviewWiring.arcs f

-- what its fold sends
abbrev pub sends : Firing → List Mail
sends (lifecycle e s) = Life.fold e s
sends (ci e s) = sent (Ci.fold e s)
sends (ci_end c s) = Ci.end c s
sends (ci_drain m x) = Ci.drain_echo m x
sends (escalation f) = EscWiring.sends f
sends (mutation f) = MutWiring.sends f
sends (readiness f) = ReadyWiring.sends f
sends (reminders f) = RemWiring.sends f
sends (dashboard f) = DashWiring.sends f
sends (conversation f) = ConvWiring.sends f
sends (review f) = ReviewWiring.sends f

-- Every transition of the lifecycle, CI, escalation, mutation, readiness, reminder, dashboard,
-- conversation and review loops that has a handler, the drains and the migrations of readiness' legacy
-- envelopes included, is wired to each place that its fold sends to, whatever tokens it binds: `route`, which keeps
-- silent about a place without an arc, drops nothing and keeps the order.
pub sends_are_wired : (f : Firing) → route (arcs f) (sends f) ≡ sends f
sends_are_wired (lifecycle e s) = LifeWiring.fold-route e s
sends_are_wired (ci e s) = CiWiring.fold-route e s
sends_are_wired (ci_end c s) = CiWiring.close-route c s
sends_are_wired (ci_drain m x) = CiWiring.echo-route m x
sends_are_wired (escalation f) = EscWiring.sends-route f
sends_are_wired (mutation f) = MutWiring.sends-route f
sends_are_wired (readiness f) = ReadyWiring.sends-route f
sends_are_wired (reminders f) = RemWiring.sends-route f
sends_are_wired (dashboard f) = DashWiring.sends-route f
sends_are_wired (conversation f) = ConvWiring.sends-route f
sends_are_wired (review f) = ReviewWiring.sends-route f
