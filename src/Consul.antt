-- ===== src/Consul.antt =====
-- consul_client.hpp: the client for Consul. Its exceptions are values; the service is a parameter.
pub mod Service
pub mod Contract
pub mod Naming
pub mod Commit
pub mod Replies
pub mod Session
pub mod Methods
pub mod Transactions
pub mod Refine
pub mod Local
mod Examples
