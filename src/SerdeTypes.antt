-- ===== src/SerdeTypes.antt =====
-- The types with texts of their own, of evobench-tools/src/serde_types.
pub mod AllowedEnvVar
pub mod GitHash
pub mod ProperFilename
