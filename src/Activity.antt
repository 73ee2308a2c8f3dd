-- ===== src/Activity.antt =====
-- The activity engine of the local daemon (crates/shellbell-local/src/activity.rs): what a shell
-- session is, the operations on the sessions, and what holds of them.
pub mod Session
pub mod Engine
pub mod Finds
pub mod Rings
pub mod Invariant
pub mod Tick
pub mod Trace
pub mod Keeps
pub mod WellFormed
pub mod Quiet
pub mod Once
pub mod Bursts
