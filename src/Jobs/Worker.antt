-- ===== src/Jobs/Worker.antt =====
-- backend/apps/jobs/tasks.py, transform_builders.py and cancellation.py: one run of the Celery task
-- `run_job`. Each database statement is one atomic step, before which other processes may act.
pub mod Externals
pub mod Task
pub mod Safety
pub mod Runs
pub mod Settles
pub mod Retries
pub mod Cancelled
