-- ===== src/Examples.antt =====
-- Concrete inputs: a cluster, and the theorems applied to it.
pub mod Orders
pub mod Cluster
pub mod Keys
pub mod Secrets
pub mod Requests
pub mod Products
pub mod Manager
pub mod Flow
pub mod Writes
pub mod Store
pub mod Server
pub mod History
pub mod Rest
