-- ===== src/Wire.antt =====
-- The JSON values that the feed carries and that the service stores.
pub mod Json
