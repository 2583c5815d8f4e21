-- ===== src/Forwarder/Runtime.antt =====
-- forwarder/src/runtime: the contract's runtime over the host functions.
pub mod Exec
pub mod Env
pub mod Io
pub mod Storage
pub mod Handler
pub mod Sim
pub mod Run
pub mod Steps
pub mod Upholds
