-- ===== src/KeyStatus.antt =====
-- internal/controller/apikey_status_controller.go: the status of every APIKey.
pub mod Approvals
pub mod Failures
pub mod Methods
pub mod Conditions
pub mod Phase
pub mod Decision
pub mod Status
pub mod Reconcile
pub mod Serviceable
pub mod Reordered
pub mod Stability
pub mod Expiry
pub mod Writes
