-- ===== src/Review.antt =====
-- The review loop (src/hamsterdan/readiness/net_v5/review.py): one agent round for each admitted head,
-- and one publication of its findings. `digest` is the hexadecimal SHA-256 of a head and incarnation.
pub mod Identity
pub mod Grammar
pub mod Custody
pub mod Folds
pub mod Settle
pub mod Protocol
pub mod Runs
pub mod Soundness
pub mod Invariant
pub mod Reports
pub mod Spares
pub mod Forgets
pub mod Supersede
pub mod Wiring
mod Examples
