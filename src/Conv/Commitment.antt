-- ===== src/Conv/Commitment.antt =====
-- Which comments commit the workflow to a mutation.
use hamsterdan.Base.{
  ℕ, ◌+◌, ◌≤◌, String, Bool, true, false, not, ◌||◌, Option, none, some, List, [], ◌∷◌, ◌++◌, ◌==◌,
  ◌≡◌, ◌⊎◌, inl, inr, refl, sym, ap, ◌∙◌, arith, eq_iff, ◌⧺◌, Bool-cases, Option-cases, All,
  All-append, All-map, one_if, strip, strip-append, before_colon,
}
use mathlib.Core.Path.{subst}
use hamsterdan.Colors.{
  phase_eq, running, terminal, IntentFact, MutationRequest, RecoverFact, ConvMemory, Mail, mem_text,
  mut_requests,
}
use hamsterdan.Conv.{
  Grade, immediate, note, committing, grade, answer, answer_grade, answer_recovery, recover_route,
  note_routes, request_of, classify, fold_replied, fold_blocked, fold_fault, recover, recover_reply,
  reissue, retained,
}
use hamsterdan.Conv.Protocol.{
  ConvEvent, commented, replied, blocked, faulted, recovered, emit, kept, mailed,
}

-- the mutations that are asked for under a comment's identity
abbrev pub requests : String → List Mail → ℕ
requests id [] = 0
requests id (mut_requests q ∷ ms) = one_if (q.rid == ("comment:" ⧺ id)) + requests id ms
requests id (_ ∷ ms) = requests id ms

-- the request is that of an authorized comment of the run, frozen while the pull request was running and
-- lifecycle expected no head of its own
abbrev pub IsCommitted : List ConvEvent → MutationRequest → Type 0
IsCommitted [] q = ⊥
IsCommitted (commented i ∷ es) q =
    ((i.authorized ≡ true)
      × (phase_eq i.phase running ≡ true)
      × (i.provisional ≡ false)
      × (q ≡ request_of i))
    ⊎ IsCommitted es q
IsCommitted (_ ∷ es) q = IsCommitted es q

abbrev pub AsksCommitted : List ConvEvent → Mail → Type 0
AsksCommitted es (mut_requests q) = IsCommitted es q
AsksCommitted es _ = Unit

some_inj : {s t : String} → some s ≡ some t → s ≡ t
some_inj p = cc

comment-inj : (i j : String) → ("comment:" ⧺ i) ≡ ("comment:" ⧺ j) → i ≡ j
unfolding strip
comment-inj i j p =
    some_inj (sym (strip-append "comment:" i) ∙ ap (strip "comment:") p ∙ strip-append "comment:" j)

mem_text-append :
    (p : String) (xs : List String) (q : String)
    → mem_text p (xs ++ q ∷ []) ≡ (mem_text p xs || p == q)
mem_text-append p [] q = ground arith
mem_text-append p (x ∷ xs) q = ground (arith, mem_text-append p xs q)

requests-append :
    (id : String) (ms ns : List Mail) → requests id (ms ++ ns) ≡ requests id ms + requests id ns
requests-append id [] ns = omega arith
requests-append id (mut_requests q ∷ ms) ns = ground (arith, requests-append id ms ns)
requests-append id (_ ∷ ms) ns = requests-append id ms ns

-- what an intent sends to the sibling loops: at most the request of its own identity, if committed
abbrev Obeys : IntentFact → List Mail → Type 0
Obeys i ms =
    ((id : String) → requests id ms ≤ one_if (i.id == id))
    × ((es : List ConvEvent) → All (AsksCommitted (commented i ∷ es)) ms)

nothing-Obeys : (i : IntentFact) → Obeys i []
nothing-Obeys i = (λ id. omega arith, λ es. tt)

notes-Obeys : (i : IntentFact) → Obeys i (note_routes i)
notes-Obeys i = (λ id. ground arith, λ es. ground arith)

recovery-Obeys :
    (i : IntentFact) (text p : String) → Obeys i (answer_recovery i text (recover_route p)).1
recovery-Obeys i text p = (λ id. ground arith, λ es. ground arith)

request-Obeys :
    (i : IntentFact)
    → i.authorized ≡ true
    → phase_eq i.phase running ≡ true
    → i.provisional ≡ false
    → Obeys i (mut_requests (request_of i) ∷ [])
request-Obeys i a p q = (
  λ id.
      ground
        (arith, eq_iff ("comment:" ⧺ i.id) ("comment:" ⧺ id), eq_iff i.id id, comment-inj i.id id),
  λ es. (inl (a, p, q, refl), tt),
)

committed_sends :
    (i : IntentFact) (text : String)
    → phase_eq i.phase running ≡ true
    → i.provisional ≡ false
    → mut_requests (request_of i) ∷ [] ≡ (answer_grade i (some (committing text))).1
unfolding answer_grade
committed_sends i text p q = ground arith

grade-Obeys :
    (i : IntentFact) (g : Option Grade) → i.authorized ≡ true → Obeys i (answer_grade i g).1
unfolding answer_grade
grade-Obeys i none a = nothing-Obeys i
grade-Obeys i (some immediate) a = nothing-Obeys i
grade-Obeys i (some (note text)) a = elim (Bool-cases (phase_eq i.phase terminal)) [
  | inl p ↦ rw p (nothing-Obeys i)
  | inr p ↦ elim (Bool-cases (i.kind == "recover_publication")) [
    | inl q ↦ rw (p, q) (recovery-Obeys i text (before_colon i.arg))
    | inr q ↦ rw (p, q) (notes-Obeys i)
  ]
]
grade-Obeys i (some (committing text)) a = elim (Bool-cases (phase_eq i.phase running)) [
  | inr p ↦ rw p (nothing-Obeys i)
  | inl p ↦ elim (Bool-cases i.provisional) [
    | inl q ↦ rw (p, q) (nothing-Obeys i)
    | inr q ↦ subst (Obeys i) (committed_sends i text p q) (request-Obeys i a p q)
  ]
]

authorized_sends :
    (i : IntentFact) → i.authorized ≡ true → (answer_grade i (grade i.kind)).1 ≡ (answer i).1
unfolding answer
authorized_sends i p = ground arith

answer-Obeys : (i : IntentFact) → Obeys i (answer i).1
unfolding answer
answer-Obeys i = elim (Bool-cases i.authorized) [
  | inr p ↦ rw p (nothing-Obeys i)
  | inl p ↦ subst (Obeys i) (authorized_sends i p) (grade-Obeys i (grade i.kind) p)
]

-- the requests of an identity that a memory still allows
abbrev allowance : String → ConvMemory → ℕ
allowance id mem = one_if (not (mem_text id mem.served))

classify-allowance :
    (id : String) (i : IntentFact) (mem : ConvMemory)
    → requests id (classify i mem) + allowance id (kept mem (classify i mem)) ≤ allowance id mem
unfolding classify
classify-allowance id i mem = ground (
  arith,
  (answer-Obeys i).0 id,
  mem_text-append id mem.served i.id,
  eq_iff id i.id,
  eq_iff i.id id,
)

reissue-allowance :
    (id key : String) (mem : ConvMemory) (text : Option String)
    → requests id (reissue key mem text) + allowance id (kept mem (reissue key mem text))
      ≤ allowance id mem
reissue-allowance id key mem none = omega arith
reissue-allowance id key mem (some text) = omega arith

recover-allowance :
    (id : String) (mem : ConvMemory) (r : RecoverFact)
    → requests id (recover r mem) + allowance id (kept mem (recover r mem)) ≤ allowance id mem
unfolding recover recover_reply
recover-allowance id mem r = elim (Option-cases (strip "reply:" r.op)) [
  | inl p ↦ rw p (omega arith)
  | inr (key, p) ↦ rw p (ground (arith, reissue-allowance id key mem (retained key mem)))
]

emit-allowance :
    (id : String) (mem : ConvMemory) (e : ConvEvent)
    → requests id (emit mem e) + allowance id (kept mem (emit mem e)) ≤ allowance id mem
unfolding emit fold_replied fold_blocked fold_fault
emit-allowance id mem (commented i) = classify-allowance id i mem
emit-allowance id mem (replied r) = ground arith
emit-allowance id mem (blocked b) = ground arith
emit-allowance id mem (faulted f) = ground arith
emit-allowance id mem (recovered r) = recover-allowance id mem r

classify-Asks :
    (i : IntentFact) (mem : ConvMemory) (es : List ConvEvent)
    → All (AsksCommitted (commented i ∷ es)) (classify i mem)
unfolding classify
classify-Asks i mem es = elim (Bool-cases (mem_text i.id mem.served)) [
  | inl p ↦ rw p (tt, tt)
  | inr p ↦ rw p (tt, (tt, (answer-Obeys i).1 es))
]

recover-Asks :
    (r : RecoverFact) (mem : ConvMemory) (es : List ConvEvent)
    → All (AsksCommitted es) (recover r mem)
unfolding recover recover_reply reissue
recover-Asks r mem es = ground arith

emit-Asks :
    (mem : ConvMemory) (e : ConvEvent) (es : List ConvEvent)
    → All (AsksCommitted (e ∷ es)) (emit mem e)
unfolding emit fold_replied fold_blocked fold_fault
emit-Asks mem (commented i) es = classify-Asks i mem es
emit-Asks mem (replied r) es = ground arith
emit-Asks mem (blocked b) es = (tt, tt)
emit-Asks mem (faulted f) es = (tt, (tt, tt))
emit-Asks mem (recovered r) es = recover-Asks r mem (recovered r ∷ es)

later-Asks :
    (e : ConvEvent) (es : List ConvEvent) (m : Mail) → AsksCommitted es m → AsksCommitted (e ∷ es) m
later-Asks (commented i) es (mut_requests q) h = inr h
later-Asks (replied r) es (mut_requests q) h = h
later-Asks (blocked b) es (mut_requests q) h = h
later-Asks (faulted f) es (mut_requests q) h = h
later-Asks (recovered r) es (mut_requests q) h = h
later-Asks e es _ h = tt

run-Asks : (mem : ConvMemory) (es : List ConvEvent) → All (AsksCommitted es) (mailed mem es)
unfolding mailed
run-Asks mem [] = tt
run-Asks mem (e ∷ es) =
    let ms = emit mem e in
    let rest = mailed (kept mem ms) es in
    All-append (AsksCommitted (e ∷ es)) ms rest (emit-Asks mem e es) (
      All-map (AsksCommitted es) (AsksCommitted (e ∷ es)) (later-Asks e es) rest
        (run-Asks (kept mem ms) es))

run_allowance :
    (id : String) (mem : ConvMemory) (es : List ConvEvent)
    → requests id (mailed mem es) ≤ allowance id mem
unfolding mailed
run_allowance id mem [] = omega arith
run_allowance id mem (e ∷ es) = ground (
  arith,
  requests-append id (emit mem e) (mailed (kept mem (emit mem e)) es),
  emit-allowance id mem e,
  run_allowance id (kept mem (emit mem e)) es,
)

one_if_le : (b : Bool) → one_if b ≤ 1
one_if_le b = ground arith

-- In any run of the conversation loop, whatever comments, redeliveries, answers of the reply gate and
-- recoveries it takes, a comment's identity asks for at most one mutation, and each request that
-- is mailed is that of an authorized comment, in its words and under the claim frozen with it,
-- which was running and not provisional.
pub commits_once :
    (mem : ConvMemory) (es : List ConvEvent) (id : String)
    → (requests id (mailed mem es) ≤ 1) × All (AsksCommitted es) (mailed mem es)
commits_once mem es id = (
  ground (arith, run_allowance id mem es, one_if_le (not (mem_text id mem.served))),
  run-Asks mem es,
)
