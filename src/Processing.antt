-- ===== src/Processing.antt =====
-- backend/processing: the framework-free run of a transformation.
pub mod Errors
pub mod Pipeline
pub mod Schema
pub mod Transforms
pub mod Sampling
