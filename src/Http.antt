-- ===== src/Http.antt =====
-- The HTTP layer: the shape of errors, the views on files and the health check.
pub mod Errors
pub mod Files
pub mod Health
pub mod Jobs
mod Examples
