-- ===== src/Directory.antt =====
-- The directory and path layer, src/directory.c.
pub mod Path
pub mod Entries
pub mod Elements
pub mod Ends
pub mod Dirent
pub mod Fuel
