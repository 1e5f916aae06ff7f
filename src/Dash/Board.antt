-- ===== src/Dash/Board.antt =====
-- What the board shows, once the dashboard loop is quiet.
use hamsterdan.Base.{
  String, true, false, not, ◌||◌, Option, none, some, List, [], ◌∷◌, ◌++◌, ◌==◌, ◌≡◌, ◌⊎◌, refl,
  sym, ap, ◌∙◌, arith, Bool-cases, inl, inr, eq_iff, All, ◌⧺◌,
}
use mathlib.Core.Path.{subst}
use hamsterdan.Colors.{DashFact, DashHeal, DashHeld, DashMemory, DashReq, RecoverFact}
use hamsterdan.Dash.{
  Repr, seed, digest, is_held, held_of, fold, fold_landed, selfheal, fold_blocked, fold_fault,
  recover, recover_held, end, drain_fact, drain_recover, drain_heal, entries_eq,
}
use hamsterdan.Dash.Protocol.{
  poked, DashPlace, at_rest, in_flight, ended, DashState, DashEvent, observed, landed, deferred,
  blocked, faulted, recovered, healed, closed, landed_of, placed, pull, fire, fire_heal, step,
  final,
}
use hamsterdan.Dash.Pokes.{
  entries_eq_refl, entries_eq-eq, has_poke, has_poke-append, Splits, pull-Splits,
}
use hamsterdan.Dash.Projection.{live, log_of, take_inputs, inputs, dashboard_refines}

abbrev Shown : Type 0
Shown = List String × String

-- A resting baton that holds no request is shown, or a poke for it is out.
abbrev Tracks : List DashHeal → Shown → DashPlace → Type 0
Tracks pokes shown (at_rest m) =
    (is_held m ≡ true) ⊎ (shown ≡ (m.entries, m.digest)) ⊎ (has_poke m pokes ≡ true)
Tracks pokes shown _ = Unit

-- no upsert is put off for a dormant pull request
abbrev pub IsEager : DashEvent → Type 0
IsEager deferred = ⊥
IsEager _ = Unit

-- a baton that is as before is tracked as before, whatever pokes are added
keep-Tracks :
    (m : DashMemory) (pokes more : List DashHeal) (shown : Shown)
    → Tracks pokes shown (at_rest m)
    → Tracks (pokes ++ more) shown (at_rest m)
keep-Tracks m pokes more shown (inl h) = inl h
keep-Tracks m pokes more shown (inr (inl h)) = inr (inl h)
keep-Tracks m pokes more shown (inr (inr h)) =
    inr (inr (ground (arith, has_poke-append m pokes more)))

fold-Tracks :
    (repr : Repr) (f : DashFact) (m : DashMemory) (p : DashPlace) (pokes : List DashHeal)
    (shown : Shown)
    → Tracks pokes shown (at_rest m)
    → Tracks (pokes ++ poked (fold repr f m)) shown (placed p (fold repr f m))
unfolding fold
fold-Tracks repr f m p pokes shown h = elim (Bool-cases (digest repr f == m.digest)) [
  | inl q ↦ rw q (keep-Tracks m pokes [] shown h)
  | inr q ↦ elim (Bool-cases (is_held m)) [ inl k ↦ rw (q, k) (inl k) | inr k ↦ rw (q, k) tt ]
]

recover-Tracks :
    (held : Option DashHeld) (r : RecoverFact) (m : DashMemory) (p : DashPlace)
    (pokes : List DashHeal) (shown : Shown)
    → Tracks pokes shown (at_rest m)
    → Tracks (pokes ++ poked (recover_held held r m)) shown (placed p (recover_held held r m))
recover-Tracks none r m p pokes shown h = keep-Tracks m pokes [] shown h
recover-Tracks (some held) r m p pokes shown h =
    elim (Bool-cases (not (r.target == "dashboard") || not (r.op == ("dash:" ⧺ held.digest)))) [
      | inl q ↦ rw q (keep-Tracks m pokes [] shown h)
      | inr q ↦ rw q tt
    ]

-- what lands is shown, or the poke is out
landed-Tracks :
    (q : DashReq) (p : DashPlace) (pokes : List DashHeal)
    → Tracks
        (pokes ++ poked (fold_landed (landed_of q)))
        (q.entries, q.digest)
        (placed p (fold_landed (landed_of q)))
unfolding fold_landed
landed-Tracks q p pokes =
    elim (Bool-cases
      (not (q.desired_digest == q.digest) || not (entries_eq q.desired_entries q.entries))) [
        | inl k ↦ inr (
            inr (
              rw (k, has_poke-append)
                (ground (
                  arith,
                  entries_eq_refl q.desired_entries,
                  eq_iff q.desired_digest q.desired_digest,
                ))))
        | inr k ↦ inr (
            inl (
              ground (
                arith,
                eq_iff q.desired_digest q.digest,
                entries_eq-eq q.desired_entries q.entries,
              )))
      ]

heal-Tracks :
    (h : DashHeal) (rest pokes : List DashHeal) (m : DashMemory) (p : DashPlace) (shown : Shown)
    → Splits m pokes (some (h, rest))
    → Tracks pokes shown (at_rest m)
    → Tracks (rest ++ poked (selfheal h m)) shown (placed p (selfheal h m))
unfolding selfheal
heal-Tracks h rest pokes m p shown g k =
    elim (Bool-cases
      (is_held m || not (entries_eq m.entries h.entries) || not (m.digest == h.digest))) [
        | inr q ↦ rw q tt
        | inl q ↦ rw q (
            keep-Tracks m rest [] shown (elim k [
              | inl x ↦ inl x
              | inr (inl x) ↦ inr (inl x)
              | inr (inr x) ↦ elim (Bool-cases (is_held m)) [
                | inl y ↦ inl y
                | inr y ↦ inr (inr (ground (arith, g)))
              ]
            ]))
      ]

idle-Tracks :
    (s : DashState) (p : DashPlace)
    → s.place ≡ p
    → Tracks s.pokes s.shown p
    → Tracks s.pokes s.shown s.place
idle-Tracks s p q h = subst (Tracks s.pokes s.shown) (sym q) h

fire-Tracks :
    (repr : Repr) (p : DashPlace) (e : DashEvent) (s : DashState)
    → s.place ≡ p
    → IsEager e
    → Tracks s.pokes s.shown p
    → let t = fire repr p e s in Tracks t.pokes t.shown t.place
unfolding fire fold_blocked fold_fault recover end drain_fact drain_recover
fire-Tracks repr (at_rest m) (observed f) s q g h = fold-Tracks repr f m s.place s.pokes s.shown h
fire-Tracks repr (at_rest m) (recovered r) s q g h =
    recover-Tracks (held_of m) r m s.place s.pokes s.shown h
fire-Tracks repr (in_flight r) landed s q g h = landed-Tracks r s.place s.pokes
fire-Tracks repr (at_rest m) (closed c) s q g h = tt
fire-Tracks repr (at_rest m) landed s q g h = idle-Tracks s (at_rest m) q h
fire-Tracks repr (at_rest m) deferred s q g h = idle-Tracks s (at_rest m) q h
fire-Tracks repr (at_rest m) blocked s q g h = idle-Tracks s (at_rest m) q h
fire-Tracks repr (at_rest m) (faulted x) s q g h = idle-Tracks s (at_rest m) q h
fire-Tracks repr (at_rest m) (healed n) s q g h = idle-Tracks s (at_rest m) q h
fire-Tracks repr (in_flight r) deferred s q g h = absurd g
fire-Tracks repr (in_flight r) blocked s q g h = inl refl
fire-Tracks repr (in_flight r) (faulted x) s q g h = inl refl
fire-Tracks repr (in_flight r) (observed f) s q g h = idle-Tracks s (in_flight r) q h
fire-Tracks repr (in_flight r) (recovered x) s q g h = idle-Tracks s (in_flight r) q h
fire-Tracks repr (in_flight r) (closed c) s q g h = idle-Tracks s (in_flight r) q h
fire-Tracks repr (in_flight r) (healed n) s q g h = idle-Tracks s (in_flight r) q h
fire-Tracks repr (ended x) (observed f) s q g h = tt
fire-Tracks repr (ended x) (recovered r) s q g h = tt
fire-Tracks repr (ended x) landed s q g h = idle-Tracks s (ended x) q h
fire-Tracks repr (ended x) deferred s q g h = idle-Tracks s (ended x) q h
fire-Tracks repr (ended x) blocked s q g h = idle-Tracks s (ended x) q h
fire-Tracks repr (ended x) (faulted y) s q g h = idle-Tracks s (ended x) q h
fire-Tracks repr (ended x) (closed c) s q g h = idle-Tracks s (ended x) q h
fire-Tracks repr (ended x) (healed n) s q g h = idle-Tracks s (ended x) q h

fire_heal-Tracks :
    (p : DashPlace) (h : Option (DashHeal × List DashHeal)) (s : DashState)
    → s.place ≡ p
    → ((m : DashMemory) → Splits m s.pokes h)
    → Tracks s.pokes s.shown p
    → let t = fire_heal p h s in Tracks t.pokes t.shown t.place
unfolding fire_heal drain_heal
fire_heal-Tracks (at_rest m) (some h) s q g k =
    heal-Tracks h.0 h.1 s.pokes m s.place s.shown (g m) k
fire_heal-Tracks (ended e) (some h) s q g k = tt
fire_heal-Tracks (in_flight r) (some h) s q g k = idle-Tracks s (in_flight r) q k
fire_heal-Tracks (at_rest m) none s q g k = idle-Tracks s (at_rest m) q k
fire_heal-Tracks (ended e) none s q g k = idle-Tracks s (ended e) q k
fire_heal-Tracks (in_flight r) none s q g k = idle-Tracks s (in_flight r) q k

step-Tracks :
    (repr : Repr) (e : DashEvent) (s : DashState)
    → IsEager e
    → Tracks s.pokes s.shown s.place
    → let t = step repr e s in Tracks t.pokes t.shown t.place
unfolding step
step-Tracks repr (healed n) s g h =
    fire_heal-Tracks s.place (pull n s.pokes) s refl (λ m. pull-Splits m n s.pokes) h
step-Tracks repr (observed f) s g h = fire-Tracks repr s.place (observed f) s refl g h
step-Tracks repr landed s g h = fire-Tracks repr s.place landed s refl g h
step-Tracks repr deferred s g h = fire-Tracks repr s.place deferred s refl g h
step-Tracks repr blocked s g h = fire-Tracks repr s.place blocked s refl g h
step-Tracks repr (faulted x) s g h = fire-Tracks repr s.place (faulted x) s refl g h
step-Tracks repr (recovered r) s g h = fire-Tracks repr s.place (recovered r) s refl g h
step-Tracks repr (closed c) s g h = fire-Tracks repr s.place (closed c) s refl g h

run-Tracks :
    (repr : Repr) (s : DashState) (es : List DashEvent)
    → All IsEager es
    → Tracks s.pokes s.shown s.place
    → let t = final repr s es in Tracks t.pokes t.shown t.place
unfolding final
run-Tracks repr s [] g h = h
run-Tracks repr s (e ∷ es) g h = run-Tracks repr (step repr e s) es g.1 (step-Tracks repr e s g.0 h)

-- the seed: nothing noted, nothing shown
abbrev pub start : DashState
start = record { place = at_rest seed; pokes = []; shown = ([], "") }

quiet_shown :
    (m : DashMemory) (pokes : List DashHeal) (shown : Shown)
    → is_held m ≡ false
    → pokes ≡ []
    → Tracks pokes shown (at_rest m)
    → shown ≡ (m.entries, m.digest)
quiet_shown m pokes shown p q (inl h) = cc
quiet_shown m pokes shown p q (inr (inl h)) = h
quiet_shown m pokes shown p q (inr (inr h)) = let g = rw q at h in cc

-- The board converges: in any run of the dashboard loop from its seed in which no upsert is deferred,
-- with faults, blocked upserts, recoveries and facts in any order, once the baton rests with no request
-- held and no poke out, the board shows the log of all facts that the loop took.
pub board_converges :
    (repr : Repr) (es : List DashEvent) (m : DashMemory)
    → All IsEager es
    → (final repr start es).place ≡ at_rest m
    → is_held m ≡ false
    → (final repr start es).pokes ≡ []
    → live (final repr start es).shown.0 (final repr start es).shown.1
      ≡ take_inputs repr (inputs repr start es) (live [] "")
board_converges repr es m g p h q =
    let s = final repr start es in
    ap (λ (v : Shown). live v.0 v.1)
      (quiet_shown m s.pokes s.shown h q
        (subst (Tracks s.pokes s.shown) p (run-Tracks repr start es g (inr (inl refl)))))
    ∙ ap log_of (sym p)
    ∙ dashboard_refines repr start es
