-- ===== src/Agency.antt =====
-- The block kinds and their hooks: crates/agent-ledger/src/agency.
pub mod Fields
pub mod Awaiting
pub mod Words
pub mod Calls
pub mod Records
pub mod Kinds
pub mod Claims
pub mod Outcomes
pub mod Window
pub mod Interface
pub mod Frontier
pub mod Drive
pub mod Approval
pub mod Title
pub mod Machine
pub mod Redispatch
