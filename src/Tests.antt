-- ===== src/Tests.antt =====
-- Concrete ledgers, and the theorems at them.
mod Evaluated
mod Session
mod Ledgers
mod Drives
mod Chunks
mod Cuts
mod Hub
mod Messages
mod Turns
mod Actors
mod Wakeups
mod Routes
mod Feeds
mod Titles
mod Declared
