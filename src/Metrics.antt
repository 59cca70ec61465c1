-- ===== src/Metrics.antt =====
-- Tactical metrics over normalized observations (server/timing/metrics.py).
pub mod Gap
pub mod Trend
pub mod Coverage
pub mod Given
pub mod LapCoverage
pub mod Pits
pub mod Stints
pub mod Stops
pub mod Ledger
mod Tests
pub mod Stored
pub mod Completed
pub mod Reported
