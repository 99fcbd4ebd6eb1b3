-- ===== src/Api.antt =====
-- The API types of the custom resource, api/v1beta1 and api/v1beta2, with pkg/constants and the
-- conversion between the two versions.
pub mod Meta
pub mod Constants
pub mod V1beta1
pub mod V1beta2
pub mod DeepCopy
pub mod Conversion
