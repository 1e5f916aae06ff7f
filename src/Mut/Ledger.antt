-- ===== src/Mut/Ledger.antt =====
-- Every request settles: the settlements with an operation identity, and the round in flight, are
-- exactly the requests taken and the recoveries accepted with it.
use hamsterdan.Base.{one_if, ℕ, ◌+◌, String, List, [], ◌∷◌, ◌++◌, ◌≡◌, arith, ◌==◌}
use hamsterdan.Colors.{Mail, esc_settled, mut_work}
use hamsterdan.Mut.{op_key}
use hamsterdan.Mut.Protocol.{
  MutPlace, at_rest, in_flight, ended, MutEvent, requested, recovered, placed, emit, final, mailed,
}

module _ (k : String) where
  -- settlements with the identity `k`
  abbrev pub settlements : List Mail → ℕ
  settlements [] = 0
  settlements (esc_settled m ∷ ms) = one_if (m.op_key == k) + settlements ms
  settlements (_ ∷ ms) = settlements ms

  -- rounds opened with the identity `k`
  abbrev pub rounds : List Mail → ℕ
  rounds [] = 0
  rounds (mut_work w ∷ ms) = one_if (w.op_key == k) + rounds ms
  rounds (_ ∷ ms) = rounds ms

  abbrev pub flying : MutPlace → ℕ
  flying (in_flight w) = one_if (w.op_key == k)
  flying _ = 0

  -- a request waits in its mailbox while a round is in flight
  abbrev pub taken_now : MutPlace → MutEvent → ℕ
  taken_now (in_flight w) (requested q) = 0
  taken_now s (requested q) = one_if (op_key q == k)
  taken_now s (recovered r) = rounds (emit s (recovered r))
  taken_now s _ = 0

  -- over a run: the requests taken with the identity `k`, and the recoveries that reopened it
  pub taken : MutPlace → List MutEvent → ℕ
  taken s [] = 0
  taken s (e ∷ es) = taken_now s e + taken (placed s (emit s e)) es

  emit_settles :
      (s : MutPlace) (e : MutEvent)
      → settlements (emit s e) + flying (placed s (emit s e)) ≡ flying s + taken_now s e
  unfolding emit
  emit_settles (at_rest st) e = ground arith
  emit_settles (in_flight w) e = ground arith
  emit_settles (ended x) e = ground arith

  settlements-append :
      (ms ns : List Mail) → settlements (ms ++ ns) ≡ settlements ms + settlements ns
  settlements-append [] ns = omega arith
  settlements-append (esc_settled m ∷ ms) ns = omega (arith, settlements-append ms ns)
  settlements-append (_ ∷ ms) ns = settlements-append ms ns

  -- For each operation identity and any run: the settlements mailed to escalation, and one more if
  -- the round is in flight at the end, are as many as the requests taken and the recoveries
  -- accepted, and one more if it was in flight at the start. No round is lost and none settles twice.
  pub settlements-final :
      (s : MutPlace) (es : List MutEvent)
      → settlements (mailed s es) + flying (final s es) ≡ flying s + taken s es
  unfolding mailed final taken
  settlements-final s [] = omega arith
  settlements-final s (e ∷ es) = omega (
    arith,
    emit_settles s e,
    settlements-final (placed s (emit s e)) es,
    settlements-append (emit s e) (mailed (placed s (emit s e)) es),
  )
