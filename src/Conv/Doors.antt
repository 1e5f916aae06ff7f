-- ===== src/Conv/Doors.antt =====
-- The recovery doors: a human's recovery, routed by the conversation loop, and the loop that owns
-- the operation.
use hamsterdan.Base.{
  String, true, false, none, some, List, [], ◌∷◌, ◌==◌, ◌≡◌, ◌⊎◌, refl, sym, ap, ◌∙◌, arith, eq_iff,
  is_some, get, ◌⧺◌, before_colon, before_colon-append, strip-append,
}
use hamsterdan.Colors.{
  Snapshot, AnnounceReq, ready_recover, ready_announce_req, phase_eq, terminal, IntentFact,
  RecoverFact, ConvMemory, RemState, MutState, DashMemory, DashHeld, Mail, mem_text, conv_memory,
  conv_reply_req, rem_pub_req, rem_recover, mut_recover, mut_work, dash_recover, dash_pub_req,
  review_recover, review_publishable, ReviewMemory, PubRecord, Pub,
}
use hamsterdan.Conv.{
  note, grade, Answer, classify, answer, answer_grade, answer_recovery, recover_route, served_with,
}
use hamsterdan.Rem.Folds as Rem
use hamsterdan.Mut
use hamsterdan.Mut.{is_faulted, recovered_work}
use hamsterdan.Ready
use hamsterdan.Review.Settle as Review
use hamsterdan.Review.Settle.{is_retained}
use hamsterdan.Dash.{held_of}
use text.Mathlib.TextLemmas.{append_assoc}
use hamsterdan.Dash

-- an authorized comment, not answered before, that asks to recover an operation while the pull request is open
abbrev pub IsRecovery : IntentFact → ConvMemory → String → Type 0
IsRecovery i mem op =
    (mem_text i.id mem.served ≡ false)
    × (i.authorized ≡ true)
    × (phase_eq i.phase terminal ≡ false)
    × (i.kind ≡ "recover_publication")
    × (i.arg ≡ op)

abbrev pub recovery_text : String
recovery_text = "On it — I'm retrying that publication now."

-- what the comment is routed to, for a prefix that is known
abbrev pub Routes : IntentFact → ConvMemory → Mail → Type 0
Routes i mem m =
    classify i mem
    ≡ conv_memory (served_with mem i.id recovery_text)
      ∷ conv_reply_req (record { id = i.id; text = recovery_text })
      ∷ m
      ∷ []

authorized_answer :
    (i : IntentFact) → i.authorized ≡ true → answer i ≡ answer_grade i (grade i.kind)
unfolding answer
authorized_answer i p = ground arith

open_answer :
    (i : IntentFact) (text : String)
    → phase_eq i.phase terminal ≡ false
    → (i.kind == "recover_publication") ≡ true
    → answer_grade i (some (note text))
      ≡ answer_recovery i text (recover_route (before_colon i.arg))
unfolding answer_grade
open_answer i text p q = ground arith

recovery_answer :
    (i : IntentFact) (mem : ConvMemory) (op : String)
    → IsRecovery i mem op
    → answer i ≡ answer_recovery i recovery_text (recover_route (before_colon op))
recovery_answer i mem op h =
    authorized_answer i h.1
    ∙ ap (λ kind. answer_grade i (grade kind)) h.3
    ∙ open_answer i recovery_text h.2 ((eq_iff i.kind "recover_publication").1 h.3)
    ∙ ap (λ arg. answer_recovery i recovery_text (recover_route (before_colon arg))) h.4

classified :
    (i : IntentFact) (mem : ConvMemory) (a : Answer)
    → mem_text i.id mem.served ≡ false
    → answer i ≡ a
    → classify i mem
      ≡ conv_memory (served_with mem i.id a.0)
        ∷ conv_reply_req (record { id = i.id; text = a.0 })
        ∷ a.1
unfolding classify
classified i mem a p q = rw (p, q) refl

-- a recovery is mailed to the loop that its operation's prefix names
routed :
    (i : IntentFact) (mem : ConvMemory) (prefix op : String) (door : RecoverFact → Mail)
    (target : String)
    → recover_route prefix ≡ some (door, target)
    → before_colon op ≡ prefix
    → IsRecovery i mem op
    → Routes i mem (door (record { target = target; op = op }))
routed i mem prefix op door target p q h =
    classified i mem (recovery_text, door (record { target = target; op = op }) ∷ []) h.0
      (recovery_answer i mem op h
        ∙ ap (answer_recovery i recovery_text) (ap recover_route q ∙ p)
        ∙ ap (λ arg. (recovery_text, door (record { target = target; op = arg }) ∷ [])) h.4)

-- A publication that a loop retains: a push that faulted, a board that is blocked or faulted, a nudge
-- that is blocked, an announcement that is blocked, findings that are blocked or faulted.
pub data Held : Type 0 where
  push : MutState → String → Held
  board : DashMemory → DashHeld → Held
  nudge : RemState → String → Held
  announcement : Snapshot → AnnounceReq → String → Held
  findings : ReviewMemory → PubRecord → String → Held

-- the loop's baton retains it
abbrev pub IsHeld : Held → Type 0
IsHeld (push st rest) = (is_faulted st.state ≡ true) × (st.op_key ≡ "push:" ⧺ rest)
IsHeld (board mem held) = held_of mem ≡ some held
IsHeld (nudge st id) = (is_some (get id st.blocked) ≡ true) × (st.closing ≡ none)
IsHeld (announcement s r rest) =
    (s.blocked ≡ some r) × (r.op ≡ "ready:" ⧺ rest) × (s.closing ≡ none)
IsHeld (findings m p rest) =
    (m.publication ≡ Pub.held p) × (is_retained p.phase ≡ true) × (p.op ≡ "findings:" ⧺ rest)

-- the operation that a human names to recover it
abbrev pub operation_of : Held → String
operation_of (push st rest) = "push:" ⧺ rest
operation_of (board mem held) = "dash:" ⧺ held.digest
operation_of (nudge st id) = "reminder:" ⧺ id
operation_of (announcement s r rest) = "ready:" ⧺ rest
operation_of (findings m p rest) = "findings:" ⧺ rest

-- the fact that its loop takes, and the mailbox
abbrev pub fact_of : Held → RecoverFact
fact_of (push st rest) = record { target = "mutation"; op = "push:" ⧺ rest }
fact_of (board mem held) = record { target = "dashboard"; op = "dash:" ⧺ held.digest }
fact_of (nudge st id) = record { target = "reminder"; op = "reminder:" ⧺ id }
fact_of (announcement s r rest) = record { target = "readiness"; op = "ready:" ⧺ rest }
fact_of (findings m p rest) = record { target = "review"; op = "findings:" ⧺ rest }

abbrev pub door_of : Held → RecoverFact → Mail
door_of (push st rest) = mut_recover
door_of (board mem held) = dash_recover
door_of (nudge st id) = rem_recover
door_of (announcement s r rest) = ready_recover
door_of (findings m p rest) = review_recover

-- what the owning loop's recovery sends, and the request that is wanted of it
abbrev pub recovered : Held → List Mail
recovered (push st rest) = Mut.recover (fact_of (push st rest)) st
recovered (board mem held) = Dash.recover (fact_of (board mem held)) mem
recovered (nudge st id) = Rem.recover (fact_of (nudge st id)) st
recovered (announcement s r rest) = Ready.recover (fact_of (announcement s r rest)) s
recovered (findings m p rest) = Review.recover (fact_of (findings m p rest)) m

abbrev pub wanted : Held → Mail
wanted (push st rest) = mut_work (recovered_work st)
wanted (board mem held) = dash_pub_req (Dash.reissue held mem)
wanted (nudge st id) = rem_pub_req (record { timer_id = id })
wanted (announcement s r rest) = ready_announce_req r
wanted (findings m p rest) = review_publishable (Review.reopened p m)

abbrev pub Sends : List Mail → Mail → Type 0
Sends [] m = ⊥
Sends (x ∷ xs) m = (x ≡ m) ⊎ Sends xs m

held_routed :
    (i : IntentFact) (mem : ConvMemory) (h : Held)
    → IsRecovery i mem (operation_of h)
    → Routes i mem (door_of h (fact_of h))
held_routed i mem (push st rest) k =
    routed i mem "push" ("push:" ⧺ rest) mut_recover "mutation" refl
      (ap before_colon (append_assoc "push" ":" rest) ∙ before_colon-append "push" rest refl) k
held_routed i mem (board m held) k =
    routed i mem "dash" ("dash:" ⧺ held.digest) dash_recover "dashboard" refl
      (ap before_colon (append_assoc "dash" ":" held.digest)
        ∙ before_colon-append "dash" held.digest refl)
      k
held_routed i mem (nudge st id) k =
    routed i mem "reminder" ("reminder:" ⧺ id) rem_recover "reminder" refl
      (ap before_colon (append_assoc "reminder" ":" id) ∙ before_colon-append "reminder" id refl) k
held_routed i mem (announcement s r rest) k =
    routed i mem "ready" ("ready:" ⧺ rest) ready_recover "readiness" refl
      (ap before_colon (append_assoc "ready" ":" rest) ∙ before_colon-append "ready" rest refl) k
held_routed i mem (findings m p rest) k =
    routed i mem "findings" ("findings:" ⧺ rest) review_recover "review" refl
      (ap before_colon (append_assoc "findings" ":" rest)
        ∙ before_colon-append "findings" rest refl)
      k

push_reopens :
    (st : MutState) (rest : String)
    → IsHeld (push st rest)
    → Sends (recovered (push st rest)) (mut_work (recovered_work st))
unfolding Mut.recover
push_reopens st rest h = ground (arith, h.0, sym h.1, eq_iff ("push:" ⧺ rest) st.op_key)

board_reopens :
    (mem : DashMemory) (held : DashHeld)
    → IsHeld (board mem held)
    → Sends (recovered (board mem held)) (dash_pub_req (Dash.reissue held mem))
unfolding Dash.recover
board_reopens mem held h =
    rw h (ground (arith, eq_iff ("dash:" ⧺ held.digest) ("dash:" ⧺ held.digest)))

nudge_reopens :
    (st : RemState) (id : String)
    → IsHeld (nudge st id)
    → Sends (recovered (nudge st id)) (rem_pub_req (record { timer_id = id }))
unfolding Rem.recover Rem.recover_id
nudge_reopens st id h = rw (strip-append "reminder:" id) (ground (arith, h.0, h.1))

announcement_reopens :
    (s : Snapshot) (r : AnnounceReq) (rest : String)
    → IsHeld (announcement s r rest)
    → Sends (recovered (announcement s r rest)) (ready_announce_req r)
unfolding Ready.recover Ready.recover_blocked
announcement_reopens s r rest h =
    rw h.0 (ground (arith, h.2, sym h.1, eq_iff ("ready:" ⧺ rest) r.op))

findings_reopen :
    (m : ReviewMemory) (p : PubRecord) (rest : String)
    → IsHeld (findings m p rest)
    → Sends (recovered (findings m p rest)) (review_publishable (Review.reopened p m))
unfolding Review.recover Review.recover_pub
findings_reopen m p rest h = rw h.0 (ground (arith, h.1, sym h.2, eq_iff ("findings:" ⧺ rest) p.op))

held_reopens : (h : Held) → IsHeld h → Sends (recovered h) (wanted h)
held_reopens (push st rest) k = push_reopens st rest k
held_reopens (board mem held) k = board_reopens mem held k
held_reopens (nudge st id) k = nudge_reopens st id k
held_reopens (announcement s r rest) k = announcement_reopens s r rest k
held_reopens (findings m p rest) k = findings_reopen m p rest k

-- A human can recover what a loop retains, by naming its operation: for a faulted push, a board that is
-- blocked or faulted, a blocked nudge, a blocked announcement, and findings that are blocked or faulted, an
-- authorized comment while the pull request is not closed is acknowledged and routed to the loop
-- that owns the operation, and that loop takes the fact and has the exact request in flight again.
pub doors_reopen :
    (i : IntentFact) (mem : ConvMemory) (h : Held)
    → IsHeld h
    → IsRecovery i mem (operation_of h)
    → Routes i mem (door_of h (fact_of h)) × Sends (recovered h) (wanted h)
doors_reopen i mem h k r = (held_routed i mem h r, held_reopens h k)
