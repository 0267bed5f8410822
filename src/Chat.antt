-- ===== src/Chat.antt =====
-- The decoding of a chat-completions stream: crates/agent-ledger/src/providers/chat/sse.rs.
pub mod Json
pub mod Events
pub mod State
pub mod Stream
pub mod Source
pub mod Brackets
pub mod Assembly
pub mod Ending
