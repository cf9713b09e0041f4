-- ===== src/Jobs.antt =====
-- backend/apps/jobs: the job table, its lifecycle, the services of the API and the worker's task.
pub mod Model
pub mod Table
pub mod Statements
pub mod Lifecycle
pub mod Services
pub mod Serializers
mod Examples
pub mod Worker
