-- ===== src/Esc/Closing.antt =====
-- A closing ladder waits for the repairs that the mutation loop still owes it, and then retires.
use hamsterdan.Base.{
  one_if, ℕ, ◌+◌, ◌≤◌, ◌<◌, String, true, false, some, List, [], ◌∷◌, ◌≡◌, ◌≢◌, refl, arith, eq_iff,
  Dict, get, put, without, ◌⧺◌, All,
}
use hamsterdan.Colors.{
  RepairState, RepairEntry, Outcome, Ladder, Mail, MutationSettled, mut_requests, esc_rerun_req,
}
use hamsterdan.Esc.{
  is_pending, pending_repairs, decide, recover, fold_settled, settle_found, settle_entry, end,
}
use hamsterdan.Esc.Protocol.{
  EscState, at_rest, in_gate, ended, EscEvent, failed, recovered, settled, closed, placed, emit,
}

-- how many repairs are owed
abbrev pub owed : Dict RepairEntry → ℕ
owed [] = 0
owed ((k, x) ∷ d) = one_if (is_pending x) + owed d

owed-pending_repairs : (d : Dict RepairEntry) → pending_repairs d ≡ true → 0 < owed d
owed-pending_repairs [] h = cc
owed-pending_repairs ((k, x) ∷ d) h = ground (arith, owed-pending_repairs d)

module _ (k : String) where
  owed-put :
      (x v : RepairEntry) (d : Dict RepairEntry)
      → get k d ≡ some x
      → is_pending x ≡ true
      → is_pending v ≡ false
      → owed (put k v d) < owed d
  unfolding get put
  owed-put x v [] p h g = cc
  owed-put x v ((j, y) ∷ d) p h g = ground (arith, owed-put x v d)

  owed-without-le : (d : Dict RepairEntry) → owed (without k d) ≤ owed d
  unfolding without
  owed-without-le [] = omega arith
  owed-without-le ((j, y) ∷ d) = ground (arith, owed-without-le d)

  owed-without :
      (x : RepairEntry) (d : Dict RepairEntry)
      → get k d ≡ some x
      → is_pending x ≡ true
      → owed (without k d) < owed d
  unfolding get without
  owed-without x [] p h = cc
  owed-without x ((j, y) ∷ d) p h = ground (arith, owed-without x d, owed-without-le d)

-- The ladder is closer to its end than `l`: ended for the reason with nothing owed, or still closing
-- for it and owed less, but something.
abbrev pub IsCloser : Ladder → String → EscState → Type 0
IsCloser l reason (at_rest t) =
    (t.closing ≡ some reason) × (owed t.repairs < owed l.repairs) × (0 < owed t.repairs)
IsCloser l reason (in_gate r) = ⊥
IsCloser l reason (ended e) = (e.reason ≡ reason) × (pending_repairs e.repairs ≡ false)

settle-IsCloser :
    (m : MutationSettled) (l : Ladder) (x : RepairEntry) (o : Outcome) (reason : String)
    → l.closing ≡ some reason
    → get m.fingerprint l.repairs ≡ some x
    → is_pending x ≡ true
    → IsCloser l reason (placed (at_rest l) (settle_entry m l x o))
unfolding settle_entry
settle-IsCloser m l x Outcome.landed reason c p h =
    let v = record x { state = RepairState.done } in
    ground (
      arith,
      owed-put m.fingerprint x v l.repairs p h refl,
      owed-pending_repairs (put m.fingerprint v l.repairs),
    )
settle-IsCloser m l x Outcome.declined reason c p h =
    let v = record x { state = RepairState.declined } in
    ground (
      arith,
      owed-put m.fingerprint x v l.repairs p h refl,
      owed-pending_repairs (put m.fingerprint v l.repairs),
    )
settle-IsCloser m l x Outcome.moved reason c p h = ground (
  arith,
  owed-without m.fingerprint x l.repairs p h,
  owed-pending_repairs (without m.fingerprint l.repairs),
)
settle-IsCloser m l x Outcome.faulted reason c p h =
    let v = record x { state = RepairState.fault } in
    ground (
      arith,
      owed-put m.fingerprint x v l.repairs p h refl,
      owed-pending_repairs (put m.fingerprint v l.repairs),
    )

-- Each settlement of a repair that is owed to a closing ladder, with any outcome, brings it closer
-- to its end: it retires for the recorded reason if nothing more is owed, and else owes less.
pub settled-IsCloser :
    (m : MutationSettled) (l : Ladder) (x : RepairEntry) (reason : String)
    → l.closing ≡ some reason
    → get m.fingerprint l.repairs ≡ some x
    → is_pending x ≡ true
    → m.fingerprint ≢ ""
    → m.op ≡ "repair:" ⧺ m.fingerprint
    → IsCloser l reason (placed (at_rest l) (fold_settled m l))
unfolding fold_settled settle_found
settled-IsCloser m l x reason c p h named own = ground (
  arith,
  p,
  eq_iff m.fingerprint "",
  eq_iff m.op ("repair:" ⧺ m.fingerprint),
  settle-IsCloser m l x m.outcome reason c p h,
)

-- a token that opens no round
abbrev pub OpensNothing : Mail → Type 0
OpensNothing (mut_requests m) = ⊥
OpensNothing (esc_rerun_req r) = ⊥
OpensNothing _ = Unit

-- A closing ladder opens no rerun and asks for no push, whatever comes.
pub closing-OpensNothing :
    (l : Ladder) (e : EscEvent) (ms : List Mail) (reason : String)
    → l.closing ≡ some reason
    → emit (at_rest l) e ≡ some ms
    → All OpensNothing ms
unfolding emit
closing-OpensNothing l (failed f) ms reason c p = unfold decide in ground arith
closing-OpensNothing l (recovered r) ms reason c p = unfold recover in ground arith
closing-OpensNothing l (settled m) ms reason c p = unfold fold_settled in ground arith
closing-OpensNothing l (closed x) ms reason c p = unfold end in ground arith
closing-OpensNothing l _ ms reason c p = ground arith
