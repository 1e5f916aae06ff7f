-- ===== src/Host/Review/Frozen.antt =====
-- The store of review requests keeps what it retained.
use hamsterdan.Base.{
  ℕ, String, Bool, true, false, Option, none, some, List, [], ◌∷◌, ◌++◌, ◌≡◌, inl, inr, refl, arith,
  eq_iff, Bool-cases, All, All-append, All-map, if◌then◌else◌, eqb,
}
use hamsterdan.Colors.{RoundOpen}
use hamsterdan.Host.Broker.{Run}
use hamsterdan.Host.Rerun.{claim_eq}
use hamsterdan.Host.Review.Request.{
  Comment, ReviewRequest, ReviewGate, compose_request, is_valid_request,
}
use hamsterdan.Host.Review.{
  Store, is_key, lookup, row_of, insert_or_ignore, claim_request, ClaimOutcome, read, unreachable,
  ReviewReads, Ask, Reviewed, expected, ask, ask_valid, ask_retained, on_evidence, on_unstaged,
  on_request, on_claim, on_lookup, review_agent,
}

is_key-row_of :
    (operation : String) (attempt : ℕ) (request : ReviewRequest)
    → is_key operation attempt (row_of operation attempt request) ≡ true
is_key-row_of operation attempt request = ground (arith, eq_iff operation operation)

-- a row ahead of a lookup
row_ahead :
    (b : Bool) (r : ReviewRequest) (o p q : Option ReviewRequest)
    → (if b then some r else o) ≡ p
    → (o ≡ p → q ≡ p)
    → (if b then some r else q) ≡ p
row_ahead true r o p q h f = h
row_ahead false r o p q h f = f h

no_row_ahead :
    (b : Bool) (r s : ReviewRequest) (o q : Option ReviewRequest)
    → (if b then some r else o) ≡ none
    → (o ≡ none → q ≡ some s)
    → (if b then some r else q) ≡ some s
no_row_ahead true r s o q h f = absurd (cc)
no_row_ahead false r s o q h f = f h

-- a row behind those that are there
pub lookup-append :
    (operation : String) (attempt : ℕ) (store : Store) (request : ReviewRequest)
    → lookup operation attempt store ≡ none
    → lookup operation attempt (store ++ row_of operation attempt request ∷ []) ≡ some request
unfolding lookup
lookup-append operation attempt [] request p = rw (is_key-row_of operation attempt request) refl
lookup-append operation attempt (row ∷ rows) request p =
    no_row_ahead (is_key operation attempt row) row.request request (lookup operation attempt rows)
      (lookup operation attempt (rows ++ row_of operation attempt request ∷ [])) p
      (lookup-append operation attempt rows request)

pub lookup-kept :
    (operation : String) (attempt : ℕ) (store rows : Store) (request : ReviewRequest)
    → lookup operation attempt store ≡ some request
    → lookup operation attempt (store ++ rows) ≡ some request
unfolding lookup
lookup-kept operation attempt [] rows request p = absurd (cc)
lookup-kept operation attempt (row ∷ store) rows request p =
    row_ahead (is_key operation attempt row) row.request (lookup operation attempt store)
      (some request) (lookup operation attempt (store ++ rows)) p
      (lookup-kept operation attempt store rows request)

-- the store afterwards keeps each request that it held
abbrev pub Keeps : Store → Store → Type 0
Keeps store after =
    (operation : String) (attempt : ℕ) (request : ReviewRequest)
    → lookup operation attempt store ≡ some request
    → lookup operation attempt after ≡ some request

-- what is retained is what the store holds from then on
abbrev pub Retains : String → ℕ → Store → Option (ReviewRequest × Store) → Type 0
Retains operation attempt store none = Unit
Retains operation attempt store (some c) =
    Keeps store c.1 × (lookup operation attempt c.1 ≡ some c.0)

insert-Retains :
    (operation : String) (request : ReviewRequest) (attempt : ℕ) (store : Store)
    (o : Option ReviewRequest)
    → lookup operation attempt store ≡ o
    → Retains operation attempt store (insert_or_ignore o operation request attempt store)
insert-Retains operation request attempt store none p = elim (Bool-cases (eqb attempt 0)) [
  | inl q ↦ rw q tt
  | inr q ↦ rw q (
    (λ o a r h. lookup-kept o a store (row_of operation attempt request ∷ []) r h),
    lookup-append operation attempt store request p,
  )
]
insert-Retains operation request attempt store (some r) p = ((λ o a q h. h), p)

pub claim_request-Retains :
    (operation : String) (request : ReviewRequest) (attempt : ℕ) (store : Store)
    → Retains operation attempt store (claim_request operation request attempt store)
unfolding claim_request
claim_request-Retains operation request attempt store =
    insert-Retains operation request attempt store (lookup operation attempt store) refl

-- each call of the agent carries the request that the store holds
abbrev pub IsStored : Store → Ask → Type 0
IsStored store a = lookup a.operation a.attempt store ≡ some a.request

-- the store keeps what it held, and the calls carry what it holds
abbrev pub IsFrozen : Store → Reviewed → Type 0
IsFrozen store p = Keeps store p.2 × All (IsStored p.2) p.1

module _ (gate : ReviewGate) (reads : ReviewReads) (work : RoundOpen) where
  ask-IsFrozen :
      (before store : Store) (request : ReviewRequest)
      → Keeps before store
      → lookup work.operation work.attempt store ≡ some request
      → IsFrozen before (ask gate reads work request store)
  unfolding ask
  ask-IsFrozen before store request k p = (k, (p, tt))

  ask_valid-IsFrozen :
      (before store : Store) (request : ReviewRequest)
      → Keeps before store
      → lookup work.operation work.attempt store ≡ some request
      → IsFrozen before (ask_valid gate reads work request store)
  unfolding ask_valid
  ask_valid-IsFrozen before store request k p =
      elim (Bool-cases (is_valid_request gate work request)) [
        | inl q ↦ rw q (ask-IsFrozen before store request k p)
        | inr q ↦ rw q (k, tt)
      ]

  retained-IsFrozen :
      (store : Store) (c : Option (ReviewRequest × Store))
      → Retains work.operation work.attempt store c
      → IsFrozen store (ask_retained gate reads work store c)
  unfolding ask_retained
  retained-IsFrozen store none h = ((λ o a r q. q), tt)
  retained-IsFrozen store (some (r, after)) h = ask_valid-IsFrozen store after r h.0 h.1

  evidence-IsFrozen :
      (store : Store) (e : Option (List Comment × Option Run))
      → IsFrozen store (on_evidence gate reads work store e)
  unfolding on_evidence
  evidence-IsFrozen store none = ((λ o a r q. q), tt)
  evidence-IsFrozen store (some (comments, run)) =
      let r = compose_request gate work comments run in
      retained-IsFrozen store (claim_request work.operation r work.attempt store)
        (claim_request-Retains work.operation r work.attempt store)

  -- a request looked up is the one that the store holds
  abbrev IsLookup : Store → Option ReviewRequest → Type 0
  IsLookup store none = Unit
  IsLookup store (some request) = lookup work.operation work.attempt store ≡ some request

  request-IsFrozen :
      (store : Store) (request : Option ReviewRequest)
      → IsLookup store request
      → IsFrozen store (on_request gate reads work request store)
  unfolding on_request
  request-IsFrozen store (some request) h = ask-IsFrozen store store request (λ o a r p. p) h
  request-IsFrozen store none h = evidence-IsFrozen store reads.evidence

  claim-IsFrozen :
      (store : Store) (request : Option ReviewRequest) (o : ClaimOutcome)
      → IsLookup store request
      → IsFrozen store (on_claim gate reads work request store o)
  unfolding on_claim
  claim-IsFrozen store request ClaimOutcome.raised h = ((λ o a r q. q), tt)
  claim-IsFrozen store request unreachable h = ((λ o a r q. q), tt)
  claim-IsFrozen store request (read observed) h =
      elim (Bool-cases (claim_eq observed (expected work))) [
        | inl q ↦ rw q (request-IsFrozen store request h)
        | inr q ↦ rw q ((λ o a r q. q), tt)
      ]

  lookup-IsFrozen :
      (store : Store) (request : Option ReviewRequest)
      → IsLookup store request
      → IsFrozen store (on_lookup gate reads work request store)
  unfolding on_lookup
  lookup-IsFrozen store none h = claim-IsFrozen store none reads.claim h
  lookup-IsFrozen store (some request) h = elim (Bool-cases (is_valid_request gate work request)) [
    | inl q ↦ rw q (claim-IsFrozen store (some request) reads.claim h)
    | inr q ↦ rw q ((λ o a r q. q), tt)
  ]

  found-IsLookup :
      (store : Store) (o : Option ReviewRequest)
      → lookup work.operation work.attempt store ≡ o
      → IsLookup store o
  found-IsLookup store none p = tt
  found-IsLookup store (some r) p = p

  unstaged-IsFrozen :
      (store : Store) (o : Option String) → IsFrozen store (on_unstaged gate reads work store o)
  unfolding on_unstaged
  unstaged-IsFrozen store (some b) = ((λ o a r q. q), tt)
  unstaged-IsFrozen store none =
      lookup-IsFrozen store (lookup work.operation work.attempt store)
        (found-IsLookup store (lookup work.operation work.attempt store) refl)

pub review_agent-IsFrozen :
    (gate : ReviewGate) (reads : ReviewReads) (work : RoundOpen) (store : Store)
    → IsFrozen store (review_agent gate reads work store)
unfolding review_agent
review_agent-IsFrozen gate reads work store = unstaged-IsFrozen gate reads work store reads.unstaged

-- rounds of the gate, one after the other over one store: the calls of the agent and the last store
unfoldable pub rounds : ReviewGate → List (ReviewReads × RoundOpen) → Store → List Ask × Store
unfolding review_agent
rounds gate [] store = ([], store)
rounds gate ((reads, work) ∷ rs) store =
    let p = review_agent gate reads work store in let q = rounds gate rs p.2 in (p.1 ++ q.0, q.1)

rounds-IsFrozen :
    (gate : ReviewGate) (rs : List (ReviewReads × RoundOpen)) (store : Store)
    → Keeps store (rounds gate rs store).1
      × All (IsStored (rounds gate rs store).1) (rounds gate rs store).0
unfolding rounds
rounds-IsFrozen gate [] store = ((λ o a r q. q), tt)
rounds-IsFrozen gate ((reads, work) ∷ rs) store =
    let p = review_agent gate reads work store in
    let h = review_agent-IsFrozen gate reads work store in
    let g = rounds-IsFrozen gate rs p.2 in
    (
      (λ o a r q. g.0 o a r (h.0 o a r q)),
      All-append (IsStored (rounds gate rs p.2).1) p.1 (rounds gate rs p.2).0
          (All-map _ _ (λ a q. g.0 a.operation a.attempt a.request q) p.1 h.1) g.1,
    )

-- However many rounds the review gate runs over its store, and whatever the provider, the claim reader
-- and the agent answer in each, every call of the agent carries the one request that the store holds
-- at the end for its operation and attempt: what an operation asks is frozen by its first call.
pub agent_asked_once :
    (gate : ReviewGate) (rs : List (ReviewReads × RoundOpen)) (store : Store)
    → All (IsStored (rounds gate rs store).1) (rounds gate rs store).0
agent_asked_once gate rs store = (rounds-IsFrozen gate rs store).1
