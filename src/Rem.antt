-- ===== src/Rem.antt =====
-- src/hamsterdan/readiness/net_v5/reminders.py: the reminder loop and its timer protocol with the
-- host.
pub mod Commands
pub mod Folds
pub mod Protocol
pub mod Custody
pub mod Nudges
pub mod Authority
pub mod Closing
pub mod Drains
pub mod Wiring
mod Examples
