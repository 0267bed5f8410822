-- ===== src/Reactivity.antt =====
-- Signals, change logs and the reactive loop (agent-ledger/src/reactivity.rs).
pub mod Signals
pub mod Changes
pub mod Feed
pub mod Loop
