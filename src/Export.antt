-- ===== src/Export.antt =====
-- The export of the source's data (internal/features/data_export).
pub mod Products
pub mod Paging
pub mod Checks
