-- ===== src/Balance.antt =====
-- The operations of the log that the other layers open and close (src/log.c and its callers).
pub mod Log
pub mod Alloc
pub mod Inode
pub mod Blocks
pub mod Directory
pub mod Rules
pub mod Closing
pub mod Handlers
pub mod Requests
pub mod Calls
pub mod Missing
pub mod Leaks
pub mod History
pub mod Full
pub mod Absent
