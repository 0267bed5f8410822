-- ===== src/Ingestion.antt =====
-- A provider's stream as blocks of the ledger: crates/agent-ledger/src/ingestion.rs, with the seam
-- of dispatch.rs.
--
-- One response of the provider is handled at a time; what the actor does in between (a dispatch, a
-- close, the latch) and the expiry of the drain's deadline are inputs of the reader's loop beside
-- the responses. Inside one response the latch and the seam stand still.
pub mod Rows
pub mod Reader
pub mod Text
pub mod Handle
pub mod Channel
pub mod Quiet
pub mod Turns
