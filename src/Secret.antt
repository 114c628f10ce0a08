-- ===== src/Secret.antt =====
-- internal/controller/apikey_secret_controller.go: the enforcement secret of every approved APIKey.
pub mod Desired
pub mod Reconcile
pub mod Labels
pub mod Names
pub mod Computed
pub mod Safety
pub mod Completion
pub mod Store
pub mod Refinement
