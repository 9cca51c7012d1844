-- ===== src/Etl.antt =====
-- The pipeline that checks the snapshots and fills the marts (internal/features/etl_validation).
pub mod Validation
pub mod Engine
pub mod Tables
pub mod Extractor
pub mod Pipeline
