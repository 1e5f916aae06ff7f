-- ===== src/Lib.antt =====
-- hamsterdan drives a pull request to readiness with actor loops over a Petri net. This library
-- models the pure core of the loops (src/hamsterdan/readiness/net_v5) and their token values
-- (src/hamsterdan/contracts/readiness_v5.py), and proves what each loop promises to the others.
--
-- A loop holds one baton, and mails facts to its siblings. Life (lifecycle) admits heads under fresh
-- incarnations and tells every loop; Ci observes check runs of the head and mails failures to Esc;
-- Esc (the escalation ladder) spends one rerun and then one repair on each failure, and asks Mut for
-- the push; Mut (mutation custody) runs one push at a time through the git gate and settles it;
-- Ready folds the facts of all loops into a snapshot, and announces readiness through the announce
-- gate. Rem keeps the reminder timer and nudges the author; Dash keeps the board of all facts; Conv
-- answers comments and routes what they ask for; Review opens one agent round for each head,
-- publishes its findings and tells Ready what blocks. The gates are the host's, and act on GitHub.
--
-- Files:
-- * Base and Base/*: shared helpers. Base/Assoc is Python's dict with text keys, Base/Text and
--   Base/Split the texts that operation identities are built from and taken apart with.
-- * Colors and Colors/*: src/hamsterdan/contracts/readiness_v5.py. Colors/Ingress the observations,
--   Colors/Batons the memory of each loop, Colors/Facts the facts mailed between loops, Colors/Gates
--   the work tokens of the gates and their terminals, Colors/Reviews the values of the review loop,
--   Colors/Places the places that a fold mails to, and `route` of
--   src/hamsterdan/readiness/net_v5/folding.py.
-- * Life, Ci, Esc, Mut, Ready, Rem, Dash, Conv, Review: src/hamsterdan/readiness/net_v5/life.py,
--   ci.py, esc.py, mutation.py, readiness.py, reminders.py, dashboard.py, conversation.py and
--   review.py, one function for each fold, by the source's name without the leading underscore. Mut
--   and Ready take the folds of their gates' terminals too.
-- * Life/Traces, Ci/Traces, Esc/Protocol, Mut/Protocol, Ready/Protocol, Rem/Protocol, Dash/Protocol,
--   Conv/Protocol, Review/Protocol: runs. The engine that binds tokens and picks transitions is a
--   dependency of the repository; a run is any sequence of events, in any order, each of which fires
--   its transition if the other tokens are there and waits if not. The gates answer with the
--   terminals that src/hamsterdan/host/v5/{mutation,rerun,gates,review}.py build from the request in
--   hand; which terminal, and its contents from outside, are free.
-- * Host and Host/*: the gates of src/hamsterdan/host/v5. Host/Rerun is rerun.py, with
--   CommentRerunBroker of src/hamsterdan/github_app/effects.py in Host/Broker; Host/Git is
--   mutation.py, with its coding request in Host/Git/Request; Host/Announce is `announce_gate` of
--   gates.py, Host/Findings its `publish_gate`, and Host/Publish its gates of replies, reminders and
--   the dashboard; Host/Review is review.py, with its request in Host/Review/Request. What GitHub,
--   git, the agent and the claim reader answer is a record of parameters, and a GitHubBoundaryError,
--   RuntimeError or ValueError of theirs is a value.
-- * Board and Board/*: src/hamsterdan/readiness/net_v5/board.py, the text that the dashboard's
--   entries are shown as.
-- * Gating and Gating/*: the operations of src/hamsterdan/readiness/net_v5/gating.py, under which
--   the gates are dispatched.
-- * Wiring and the Wiring of each loop: the output arcs of `wire`, and which transition has them.
-- * the other files of a folder hold the theorems about its loop, and Examples runs them on data.
--
-- Correspondence: a fold takes the values bound, and returns what it hands to `route` as a list of
-- tokens, one for each place and value. `none` is an exception of the source (a missing key, a
-- ValueError); the empty text of a phase and an empty dictionary of a held request are `none`
-- fields. Integers that the source never decreases below 0 are natural numbers: ids, attempts,
-- incarnations. The `repr` of a status in the reason of a rerun's fault is the text between plain
-- quotes. `str` of a number takes fuel `n + 1`, which is more than its digits. Every other function
-- is structurally recursive, and there is no other fuel.
--
-- Not modelled: Python's `repr`, a parameter of Dash, its reading, a parameter of Board, and
-- SHA-256, a parameter of Review; inhibitor arcs; the reading of readiness' legacy envelopes; the
-- JSON rows of the store of review requests; the rest of the host, the GitHub client and the agents,
-- which are effects; and the validation of values, the library's.
pub mod Base
pub mod Colors
pub mod Life
pub mod Ci
pub mod Esc
pub mod Mut
pub mod Ready
pub mod Rem
pub mod Dash
pub mod Conv
pub mod Review
pub mod Host
pub mod Board
pub mod Gating
pub mod Wiring
