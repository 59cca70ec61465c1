-- ===== src/RaceControl.antt =====
-- The board of race control (server/timing/screen_messages.py and
-- server/timing/race_control_store.py), over the tables of
-- server/timing/migrations/0015_race_control_messages.sql.
pub mod Messages
pub mod Board
pub mod Fits
pub mod Project
pub mod Rows
pub mod Ledger
pub mod Patches
pub mod Single
pub mod Replay
pub mod Collection
pub mod Shape
pub mod Visible
pub mod Refines
pub mod Wellformed
mod Tests
