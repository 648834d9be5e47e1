-- ===== src/Log.antt =====
-- The write-ahead log, src/log.c: its code in Header, Commit and Op; the proofs in the others.
pub mod Header
pub mod Commit
pub mod Op
pub mod HeaderLaws
pub mod Steps
pub mod Loops
pub mod Images
pub mod Committing
pub mod Recovery
pub mod Crash
pub mod Atomic
pub mod Write
pub mod Logged
pub mod Edited
pub mod Counters
pub mod Reserve
pub mod Upper
pub mod Ended
