-- ===== src/Host.antt =====
-- The host's gates (src/hamsterdan/host/v5), with the rerun broker of
-- src/hamsterdan/github_app/effects.py.
pub mod Broker
pub mod Rerun
pub mod Git
pub mod Announce
pub mod Findings
pub mod Review
pub mod Publish
