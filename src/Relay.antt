-- ===== src/Relay.antt =====
-- The relay: its HTTP handlers (crates/shellbell-relay/src/lib.rs), and its owner's password in front
-- of them (main.rs).
pub mod State
pub mod Limiter
pub mod Auth
pub mod Pairing
pub mod Owner
pub mod Password
pub mod Receivers
pub mod Rings
pub mod Push
pub mod History
