-- ===== src/Zk/Refine.antt =====
-- zk_client.hpp: what the methods do, against descriptions that do not follow the code.
pub mod Levels
pub mod Subtree
pub mod Query
pub mod Runs
pub mod Checks
pub mod Blocks
pub mod Kinds
pub mod Erase
pub mod Returns
pub mod Decided
pub mod Commit
pub mod Failed
pub mod Versions
pub mod Written
pub mod Writes
