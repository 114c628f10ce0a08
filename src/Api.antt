-- ===== src/Api.antt =====
-- api/v1alpha1: the four custom resources, and the fields of other resources that the controllers read.
pub mod Object
pub mod External
pub mod Key
pub mod Request
pub mod Approval
pub mod Product
