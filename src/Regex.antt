-- ===== src/Regex.antt =====
-- backend/processing/regex_safety.py: the checks of a pattern before Spark applies it.
pub mod Charset
pub mod Syntax
pub mod Analysis
pub mod Matching
pub mod Overlap
pub mod Empty
pub mod Consumption
pub mod Starts
pub mod Safety
pub mod Probes
pub mod Checks
pub mod Branching
pub mod Repeats
pub mod Accepted
pub mod Examples
