-- ===== src/Tests.antt =====
-- Concrete states of the program, and the theorems applied to them.
mod Fixture
mod Commits
mod Operations
mod Blocks
mod Files
pub mod Requests
pub mod Caches
pub mod Mounts
pub mod Contents
pub mod Surviving
