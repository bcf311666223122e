-- ===== src/Zk.antt =====
-- zk_client.hpp: the client for ZooKeeper. Its exceptions are values; the service is a parameter.
pub mod Service
pub mod Session
pub mod Methods
pub mod Erase
pub mod Transactions
pub mod Refine
pub mod Contract
mod Local
mod Examples
