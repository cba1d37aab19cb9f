-- ===== src/Qmapshack/RoundTrip.antt =====
-- The decoder reads back what the exporter writes.
pub mod Fields
pub mod Points
pub mod Items
pub mod Track
pub mod Waypoint
