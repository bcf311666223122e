-- ===== src/Etcd/Refine.antt =====
-- etcd_client.hpp: what the methods of `ETCDClient` achieve.
pub mod Requirements
pub mod Explain
pub mod Growth
pub mod Plan
pub mod Commit
pub mod Bounds
pub mod Indices
pub mod Erase
pub mod Tree
pub mod Runs
pub mod Create
pub mod Cas
pub mod Swaps
pub mod RemoveTxn
pub mod Remove
pub mod SetTxn
pub mod SetTurn
pub mod Set
pub mod Endless
pub mod Reads
pub mod Client
