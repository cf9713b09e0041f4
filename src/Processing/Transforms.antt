-- ===== src/Processing/Transforms.antt =====
-- backend/processing/transforms: what each transformation makes of a row.
pub mod Functions
pub mod Columns
pub mod Replace
pub mod Normalize
pub mod Mask
pub mod Escape
pub mod Rows
pub mod Quiet
pub mod Masked
pub mod Built
mod Examples
