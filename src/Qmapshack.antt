-- ===== src/Qmapshack.antt =====
-- The QMapShack export: server/qmapshack and its children.
pub mod Words
pub mod Utf16
pub mod Crates
pub mod Qtstream
pub mod Reader
pub mod Carries
pub mod Blob
pub mod Decode
pub mod RoundTrip
pub mod Strict
pub mod Target
pub mod Folders
pub mod Reconcile
pub mod Removal
mod Runs
