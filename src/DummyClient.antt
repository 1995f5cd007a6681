-- ===== src/DummyClient.antt =====
-- The client of the stress test (DummyClient): its sessions and their moves, the manager of the
-- sessions, and the threads that send.
pub mod Moves
pub mod Sessions
pub mod Senders
mod Tests
