-- ===== src/Flags.antt =====
-- The flags of the track and the states of a car, server/timing/normalization.py.
pub mod Values
pub mod Known
mod Tests
