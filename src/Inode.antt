-- ===== src/Inode.antt =====
-- The inode layer, src/inode.c.
pub mod Layout
pub mod Table
pub mod Map
pub mod Trunc
pub mod Content
pub mod Place
pub mod Bytes
pub mod Stored
pub mod Fields
pub mod Scan
pub mod Slots
pub mod Get
pub mod Walk
pub mod Paths
pub mod Fuel
pub mod Update
pub mod Read
pub mod ReadFile
pub mod Separate
pub mod Logging
pub mod Overwritten
pub mod Writing
pub mod Stamping
pub mod WriteBlock
pub mod WriteFile
pub mod Rewrite
pub mod ReadBack
pub mod Alone
pub mod Durable
