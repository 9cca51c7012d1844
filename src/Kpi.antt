-- ===== src/Kpi.antt =====
-- The KPI feature (internal/features/kpi): calibrations by scope, the three indicator formulas and
-- the engine that refreshes the snapshots of a date.
pub mod Calibration
pub mod Calculators
pub mod Engine
