-- ===== src/Spark.antt =====
-- The configuration of Spark and of its access to S3.
pub mod Config
pub mod Credentials
mod Examples
