-- ===== src/Ci/Convergence.antt =====
-- A refresh and the echo of a moved escalation, in either order.
use hamsterdan.Base.{ℕ, false, ◌&&◌, Option, none, some, List, [], ◌∷◌, ◌≡◌, arith, eq_iff, ◌==◌}
use hamsterdan.Colors.{ChecksStatus, refreshed, CiState, ChecksFailure, HeadWork, EscMoved, Mail}
use hamsterdan.Ci.{head_work, moved_echo, fold, failure_mail}
use hamsterdan.Ci.Traces.{failures, run}

-- the baton at the end, and what escalation was mailed
abbrev pub verdict : Option (CiState × List Mail) → Option (CiState × List ChecksFailure)
verdict none = none
verdict (some (s, ms)) = some (s, failures ms)

-- the echo of an escalation that was attempted under the baton's own claim
abbrev pub echo_of : CiState → EscMoved
echo_of s = record {
  fp = s.fingerprint;
  head = s.head;
  base = s.base;
  policy = s.policy;
  incarnation = s.incarnation;
}

module _ (s : CiState) (run_id attempt : ℕ) (w : HeadWork)
    (failing : s.status ≡ ChecksStatus.failure) (evidence : s.best ≡ some (run_id, attempt))
    (none_parked : s.parked ≡ []) (refreshes : w.relation ≡ refreshed)
    (moved : (w.base == s.base && w.policy == s.policy) ≡ false) where
  abbrev pub fresh : CiState
  fresh = record s { base = w.base; policy = w.policy }

  park_first :
      verdict (run s (moved_echo (echo_of s) ∷ head_work w ∷ []))
      ≡ some (fresh, failure_mail fresh s.fingerprint run_id attempt ∷ [])
  unfolding run fold
  park_first = ground (
    arith,
    eq_iff s.fingerprint s.fingerprint,
    eq_iff s.head s.head,
    eq_iff s.base s.base,
    eq_iff s.policy s.policy,
  )

  refresh_first :
      verdict (run s (head_work w ∷ moved_echo (echo_of s) ∷ []))
      ≡ some (fresh, failure_mail fresh s.fingerprint run_id attempt ∷ [])
  unfolding run fold
  refresh_first = ground (
    arith,
    eq_iff s.fingerprint s.fingerprint,
    eq_iff s.head s.head,
    eq_iff s.base w.base,
    eq_iff s.policy w.policy,
    eq_iff w.base s.base,
    eq_iff w.policy s.policy,
  )

  -- A failure under evidence `(run_id, attempt)`, with nothing parked, whose escalation moves while
  -- a refresh brings another base or policy: whether the echo or the refresh comes first, the baton
  -- is the refreshed one, and escalation is mailed exactly one failure, under the refreshed claim.
  pub echo_refresh_commute :
      (verdict (run s (moved_echo (echo_of s) ∷ head_work w ∷ []))
        ≡ some (fresh, failure_mail fresh s.fingerprint run_id attempt ∷ []))
      × (verdict (run s (head_work w ∷ moved_echo (echo_of s) ∷ []))
          ≡ some (fresh, failure_mail fresh s.fingerprint run_id attempt ∷ []))
  echo_refresh_commute = (park_first, refresh_first)
