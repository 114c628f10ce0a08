-- ===== src/Product.antt =====
-- internal/controller/apiproduct_controller.go, internal/controller/apiproduct_helper.go and
-- internal/oidc/discovery.go: the status of every APIProduct.
pub mod Policies
pub mod Web
pub mod Oidc
pub mod OpenApi
pub mod Status
pub mod Reconcile
pub mod Effective
pub mod Bounds
pub mod Fetches
pub mod Endpoints
pub mod Settling
pub mod Stable
pub mod Issuers
pub mod Settled
pub mod Written
pub mod Writes
pub mod Readiness
