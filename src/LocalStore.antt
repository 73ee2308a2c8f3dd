-- ===== src/LocalStore.antt =====
-- The daemon's durable store (crates/shellbell-local/src/store.rs): the saved sessions and the queue
-- of rings that wait for the relay.
pub mod Queue
pub mod Store
