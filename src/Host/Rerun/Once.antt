-- ===== src/Host/Rerun/Once.antt =====
-- A rerun is requested once, however often its gate runs.
use hamsterdan.Base.{
  ℕ, ◌+◌, ◌≤◌, String, false, ◌&&◌, List, [], ◌∷◌, ◌++◌, ◌≡◌, inl, inr, ◌==◌, one_if, eq_iff, arith,
  refl, if◌then◌else◌,
}
use hamsterdan.Colors.{RerunReq}
use hamsterdan.Host.Broker.{Comment, Reads, marker, find}
use hamsterdan.Host.Rerun.{rerun_gate}
use hamsterdan.Host.Rerun.Fence.{PostsFenced, gate-PostsFenced}

-- A round of the gate, or a comment by someone else; one in the bot's name is not someone else's.
pub data HostEvent : Type 0 where
  attempted : Reads → RerunReq → HostEvent
  commented : Comment → HostEvent

-- the comments after an event
unfoldable pub step : String → List Comment → HostEvent → List Comment
step bot cs (attempted reads work) = (rerun_gate bot reads cs work).1
step bot cs (commented c) = if c.login == bot then cs else cs ++ c ∷ []

unfoldable pub final : String → List Comment → List HostEvent → List Comment
final bot cs [] = cs
final bot cs (e ∷ es) = final bot (step bot cs e) es

-- the bot's comments that are the marker
abbrev pub marked : String → String → List Comment → ℕ
marked bot m [] = 0
marked bot m (c ∷ cs) = one_if (c.login == bot && c.body == m) + marked bot m cs

marked-append :
    (bot m : String) (cs ds : List Comment)
    → marked bot m (cs ++ ds) ≡ marked bot m cs + marked bot m ds
marked-append bot m [] ds = omega arith
marked-append bot m (c ∷ cs) ds = ground (arith, marked-append bot m cs ds)

unfound_unmarked :
    (bot m : String) (cs : List Comment) → find bot m cs ≡ false → marked bot m cs ≡ 0
unfolding find
unfound_unmarked bot m [] h = refl
unfound_unmarked bot m (c ∷ cs) h = ground (arith, unfound_unmarked bot m cs)

post_once :
    (bot m n : String) (cs : List Comment)
    → find bot n cs ≡ false
    → marked bot m cs ≤ 1
    → marked bot m (cs ++ record { login = bot; body = n } ∷ []) ≤ 1
post_once bot m n cs h p = ground (
  arith,
  marked-append bot m cs (record { login = bot; body = n } ∷ []),
  eq_iff n m,
  unfound_unmarked bot n cs h,
  unfound_unmarked bot m cs,
)

step_once :
    (bot m : String) (cs : List Comment) (e : HostEvent)
    → marked bot m cs ≤ 1
    → marked bot m (step bot cs e) ≤ 1
unfolding step
step_once bot m cs (commented c) h = ground (arith, marked-append bot m cs (c ∷ []))
step_once bot m cs (attempted reads work) h = once (gate-PostsFenced bot reads cs work)
  where
    once : {after : List Comment} → PostsFenced bot reads cs work after → marked bot m after ≤ 1
    once (inl p) = ground arith
    once (inr (run, q)) =
        ground (arith, q.posts, q.not_posted, post_once bot m (marker run.id run.head work.op) cs)

-- For each marker, the bot never posts it twice: through any rounds of the rerun gate, for any
-- requests, with any reads failing, posts landing unproven or lost, and comments of others in
-- between, at most one of its comments is the marker if at most one was at the start.
pub rerun_once :
    (bot m : String) (cs : List Comment) (es : List HostEvent)
    → marked bot m cs ≤ 1
    → marked bot m (final bot cs es) ≤ 1
unfolding final
rerun_once bot m cs [] h = h
rerun_once bot m cs (e ∷ es) h = rerun_once bot m (step bot cs e) es (step_once bot m cs e h)
