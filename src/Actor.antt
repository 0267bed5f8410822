-- ===== src/Actor.antt =====
-- The conversation actor: crates/agent-ledger/src/actor.rs, from its handlers to the dispatch of a
-- turn. One signal is handled at a time, as the actor's task takes them from its mailbox; the
-- reader, the scheduler and the tools run beside it, and are the signals and the shared state here.
pub mod State
pub mod Levels
pub mod Close
pub mod Bind
pub mod Dispatch
pub mod Handle
pub mod Tick
pub mod Reactor
pub mod Facts
pub mod Sends
pub mod Flight
pub mod Latch
