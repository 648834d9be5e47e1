-- ===== src/Machine.antt =====
-- The state of the file system process, and commands that change it. A buffer is named by its
-- block number: the cache holds at most one buffer for a block.
mod State
mod Command
pub mod Block
pub mod Buffer
pub mod Effect
pub mod Keeps
pub use State.*
pub use Command.*
