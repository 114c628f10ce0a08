-- ===== src/Cluster/Rest.antt =====
-- The controllers when they have come to rest.
pub mod Statuses
pub mod Requests
pub mod Answers
pub mod Secrets
pub mod Consistency
