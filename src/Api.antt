-- ===== src/Api.antt =====
-- api/v1alpha1: the custom resources.
pub mod Common
pub mod Config
pub mod Execution
