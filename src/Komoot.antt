-- ===== src/Komoot.antt =====
-- The client of the Komoot service, src/server/komoot/.
pub mod Archive
pub mod Sport
pub mod World
pub mod Service
pub mod Photo
pub mod Listing
pub mod Database
pub mod Tour
pub mod Pull
pub mod Push
pub mod Throttle
mod Runs
mod Syncs
