-- ===== src/Canonical.antt =====
-- Laps reconstructed from the passings that the tracker reports
-- (server/timing/canonical_laps.py), over the tables of
-- server/timing/migrations/0018_canonical_lap_chronology.sql.
pub mod State
pub mod Duration
pub mod Boundary
pub mod Passing
pub mod Record
pub mod Chronology
pub mod Keeps
pub mod Laps
pub mod Keeping
pub mod Once
pub mod LastCell
pub mod CellRows
pub mod Linked
mod Tests
