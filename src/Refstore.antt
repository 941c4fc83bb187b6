-- ===== src/Refstore.antt =====
-- internal/refstore and internal/budget: results that are too large for the model's context, kept
-- behind handles.
pub mod Handle
pub mod Mem
pub mod File
pub mod Gate
