-- ===== src/Lib.antt =====
-- Verification of the backend of a service that transforms CSV and Excel files with Spark.
--
-- A client submits a job (backend/apps/jobs/services.py), which is a row of one table
-- (backend/apps/jobs/models.py). A worker runs it as a task (backend/apps/jobs/tasks.py and
-- transform_builders.py): it resolves a pattern or a specification, with a language model where
-- none was given, runs the transformation in Spark (backend/processing/pipeline.py) while a monitor
-- thread reports progress (backend/processing/progress.py), and records how it ended. Clients poll
-- the row, may cancel the job, and read the result in pages (backend/apps/jobs/results.py).
--
-- The parts and their files:
-- - Failure: the exception classes with their codes; Failure/Exec: actions on a state that may raise.
-- - Jobs/Model and Jobs/Table: the row, the statuses and `JobQuerySet`, each `UPDATE` one atomic step;
--   Jobs/Statements: the statements that services and task issue. Jobs/Lifecycle: the relation of
--   all these statements, with invariants in Jobs/Lifecycle/Invariant and Jobs/Lifecycle/Outcome.
-- - Jobs/Services: `submit_job`, `cancel_job`, `get_job_results`; their laws in Jobs/Services/Laws.
-- - Jobs/Serializers: the rules of backend/apps/jobs/serializers.py on submissions, and the error shown.
-- - Jobs/Worker/Externals: what the task calls, as a record; Jobs/Worker/Task: `run_job`. The proofs
--   are in Jobs/Worker/Safety, Runs, Settles, Retries and Cancelled.
-- - Progress: `ProgressTracker`; Progress/Monitor: `SparkJobMonitor`; Progress/Laws: their bounds.
-- - Processing/Pipeline and Processing/Errors: `run_transform` and the translation of Spark's
--   exceptions; Processing/Schema: the checks of requested columns.
-- - Processing/Transforms: backend/processing/transforms, with Spark's functions in Functions and the
--   rewriting of rows in Columns, Replace, Normalize and Mask; the proofs are in Rows, Quiet, Masked,
--   Built and Escape. Processing/Sampling: backend/processing/sampling.py.
-- - Spark/Config: backend/processing/spark_session.py and backend/apps/core/spark.py; Spark/Credentials:
--   what the jobs of a worker leave in its Hadoop configuration.
-- - Files/Types, Files/Storage and Files/Listing: file types, S3's errors and `list_files` of
--   backend/apps/files; its proofs are in Rounds, Bucket (what S3 documents), Cuts, Loop, Walk and Paging.
--   Files/Connections: backend/apps/files/connections.py. Files/Preview: `get_file_preview`.
-- - Http/Errors: backend/config/exception_handler.py; Http/Jobs: backend/apps/jobs/views.py;
--   Http/Files: backend/apps/files/views.py; Http/Health: the health check. Http/Jobs/Answers and
--   Http/Files/Connected have the theorems from a request to its effect.
-- - Results: `read_results_page`; Results/Slices and Results/Pages: what pages hold.
-- - Regex/Charset, Regex/Syntax, Regex/Analysis, Regex/Safety, Regex/Probes and Regex/Checks:
--   backend/processing/regex_safety.py, the checks of a pattern. Regex/Matching describes what
--   a pattern matches; Regex/Overlap, Empty, Consumption, Starts, Branching, Repeats and Accepted relate
--   the checks to it.
-- - Llm/Service: the use cases and cache keys of backend/apps/llm/service.py; their isolation is in
--   Llm/Service/Keys.
-- - Llm/Client and Llm/Completion: backend/apps/llm/client.py, cache.py and `_complete` of service.py;
--   Llm/Patterns, Llm/Specs and Llm/Pii: backend/processing/specs.py and the suggestions of service.py.
-- - Examples modules hold concrete data on which the theorems are applied.
--
-- Other processes act before every database statement of the task and of `cancel_job`: `others` is
-- an arbitrary function on the table, restricted where needed to the lifecycle's statements. Time is
-- a natural number that is read per statement; identifiers are natural numbers. The monitor's
-- reports during one Spark call are a list that runs before the call returns. Spark, DuckDB, the
-- language model, S3 and the float operations are parameters.
--
-- The only fuel is that of the requests of `list_files`, for which two more than
-- the objects that remain are enough. Every other loop is structural, the analysis of a pattern on its
-- syntax.
--
-- Not modelled: the texts of the prompts, the readers and writers (chains of Spark's calls), settings,
-- migrations and the frontend.
pub mod Base
pub mod Failure
pub mod Files
pub mod Http
pub mod Jobs
pub mod Llm
pub mod Processing
pub mod Progress
pub mod Regex
pub mod Results
pub mod Spark
