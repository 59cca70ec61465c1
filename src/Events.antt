-- ===== src/Events.antt =====
-- The outbox of the event stream (server/timing/stream_events.py), over the table `stream_events` of
-- server/timing/migrations/0001_initial.sql and 0005.
pub mod Append
pub mod Outbox
mod Tests
