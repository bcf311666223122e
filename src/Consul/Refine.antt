-- ===== src/Consul/Refine.antt =====
-- consul_client.hpp: the methods against Client/Spec, and `commit` against what was sent.
pub mod Tree
pub mod Calls
pub mod Create
pub mod Set
pub mod Cas
pub mod Erase
pub mod Reads
pub mod Endings
pub mod ChildNames
pub mod Children
pub mod Client
pub mod Owner
pub mod Blocks
pub mod Shape
pub mod Commit
