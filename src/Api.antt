-- ===== src/Api.antt =====
-- The TaoNode custom resource and its admission webhook: api/v1alpha1.
pub mod Spec
pub mod Status
pub mod Quantities
pub mod Webhook
