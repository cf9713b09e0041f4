-- ===== src/Llm.antt =====
-- backend/apps/llm and backend/processing/specs.py: suggestions of the language model and the
-- specifications made of them.
pub mod Client
pub mod Completion
pub mod Specs
pub mod Pii
pub mod Patterns
mod Examples
pub mod Service
