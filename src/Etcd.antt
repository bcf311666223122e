-- ===== src/Etcd.antt =====
-- etcd_client.hpp: the client for etcd. Its exceptions are values; the service is a parameter.
pub mod Service
pub mod Contract
pub mod Naming
pub mod Builder
pub mod Requests
pub mod Session
pub mod Replies
pub mod Methods
pub mod Plan
pub mod Outcomes
pub mod Transactions
pub mod Watch
pub mod Refine
pub mod Local
pub mod Stored
mod Examples
