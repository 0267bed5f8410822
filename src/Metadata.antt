-- ===== src/Metadata.antt =====
-- Derived properties of a conversation (agent-ledger/src/metadata.rs): the policy that asks for a
-- title, the fulfillment that derives it, and the throttle and turns between them.
pub mod Throttle
pub mod Turns
pub mod Outside
pub mod Fulfillment
pub mod Derivation
pub mod Policy
