-- ===== src/Tools.antt =====
-- The tools of a process and of a conversation: crates/agent-ledger/src/tools/{mod, choice}.rs.
pub mod Registry
pub mod Choice
pub mod Offered
pub mod Runner
