-- ===== src/Feed.antt =====
-- The frames of the live feed, server/timing/protocol.py.
pub mod Protocol
pub mod Sent
mod Tests
