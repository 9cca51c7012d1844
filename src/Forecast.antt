-- ===== src/Forecast.antt =====
-- The forecast feature (internal/features/forecast): demand forecast, reorder calculation and
-- grouping into replenishment plans.
pub mod Models
pub mod Calculator
pub mod Constructor
pub mod Forecaster
pub mod Tables
pub mod Engine
pub mod Plans
