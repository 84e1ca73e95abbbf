-- ===== src/Session.antt =====
-- The sessions of deploys on a machine: crates/ployzd/src/daemon/deploy_control.
pub mod Locks
pub mod Agent
pub mod Commands
pub mod Client
