-- ===== src/Files.antt =====
-- backend/apps/files and backend/processing/file_types.py: the files of a connected bucket.
pub mod Types
pub mod Storage
pub mod Listing
pub mod Connections
pub mod Preview
