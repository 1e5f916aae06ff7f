-- ===== src/Life/Dormancy.antt =====
-- Closed and dormant lifecycles.
use hamsterdan.Base.{◌+◌, List, [], ◌∷◌, ◌≡◌, refl, arith, All, All-append}
use hamsterdan.Colors.{
  running, terminal, LifeState, HeadSeen, HeadWork, resumed, Mail, life_state, conv_intents,
  ci_heads,
}
use hamsterdan.Life.{LifeEvent, head_seen, draft_seen, ready_seen, fold}
use hamsterdan.Life.Traces.{next, final, mailed}

-- the baton itself, or a comment's intent that says that the lifecycle is over
abbrev pub IsInert : LifeState → Mail → Type 0
IsInert s (life_state t) = t ≡ s
IsInert s (conv_intents i) = i.phase ≡ terminal
IsInert s _ = ⊥

next-terminal : (e : LifeEvent) (s : LifeState) → s.phase ≡ terminal → next e s ≡ s
unfolding next
next-terminal e s h = ground arith

fold-terminal : (e : LifeEvent) (s : LifeState) → s.phase ≡ terminal → All (IsInert s) (fold e s)
unfolding fold
fold-terminal e s h = ground arith

-- Close is final: from a terminal baton no events change it, and all that they mail is the baton
-- and intents marked terminal.
pub terminal_absorbs :
    (s : LifeState) (es : List LifeEvent)
    → s.phase ≡ terminal
    → (final s es ≡ s) × All (IsInert s) (mailed s es)
unfolding final mailed
terminal_absorbs s [] h = (refl, tt)
terminal_absorbs s (e ∷ es) h = rw (next-terminal e s h) (
    let rest = terminal_absorbs s es h in
    (rest.0, All-append (IsInert s) (fold e s) (mailed s es) (fold-terminal e s h) rest.1))

abbrev pub works : List Mail → List HeadWork
works [] = []
works (ci_heads w ∷ ms) = w ∷ works ms
works (_ ∷ ms) = works ms

-- A running baton that goes to draft, sees a head and leaves draft hands CI one work, and that at
-- the end: the head and authority seen while dormant, under the next incarnation, as resumed and
-- with no lineage; and it expects no head.
pub resume-dormant :
    (s : LifeState) (seen : HeadSeen)
    → s.phase ≡ running
    → let es = draft_seen ∷ head_seen seen ∷ ready_seen ∷ [] in
      (works (mailed s es)
        ≡ record {
          incarnation = s.incarnation + 1;
          head = seen.head;
          base = seen.base;
          policy = seen.policy;
          relation = resumed;
          lineage = "";
        }
          ∷ [])
      × ((final s es).phase ≡ running)
      × ((final s es).expected ≡ "")
unfolding final mailed next
resume-dormant s seen h = ground arith
