-- ===== src/Examples.antt =====
-- Concrete inputs: an instance of the floats, and runs at which the theorems apply.
pub mod Fixed
mod Forecast
mod Runs
mod Scheduling
mod Kpi
mod Channels
mod Orders
mod Etl
mod Export
mod Access
mod Checks
