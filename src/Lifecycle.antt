-- ===== src/Lifecycle.antt =====
-- Analysis sessions (server/timing/lifecycle.py) over the tables of
-- server/timing/migrations/0001_initial.sql and 0002_session_lifecycle.sql.
pub mod State
pub mod Validation
pub mod Transaction
pub mod Store
pub mod Operations
pub mod Listing
pub mod Consistency
pub mod Updates
pub mod Verbs
pub mod Preservation
pub mod Atomicity
pub mod Replay
pub mod Outcomes
pub mod Arguments
mod Tests
