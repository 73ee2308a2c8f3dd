-- ===== src/Tests.antt =====
-- Tests on small inputs, and the theorems at inputs that meet their hypotheses.
mod Activity
mod Cli
mod Config
mod Daemon
mod Files
mod History
mod Install
mod LocalStore
mod Owner
mod Pairing
mod Password
mod Protocol
mod Push
mod Relay
mod Sorting
