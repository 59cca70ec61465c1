-- ===== src/Clock.antt =====
-- The clock of a connection, `ConnectionClockCalibrator` of server/timing/normalization.py.
pub mod Calibrator
pub mod Window
pub mod Median
mod Tests
