-- ===== src/Grid.antt =====
-- The result grid of the live feed, server/timing/result_grid.py, with the headers that
-- server/timing/normalization.py reads for it.
pub mod Text
pub mod Columns
pub mod Identity
pub mod Reducer
pub mod Checkpoint
pub mod Rows
pub mod Wellformed
pub mod Restored
pub mod Numbers
pub mod Conflicts
pub mod Agreement
pub mod Roundtrip
pub mod Merging
pub mod Positions
pub mod Moved
mod Tests
