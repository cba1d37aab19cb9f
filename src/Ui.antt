-- ===== src/Ui.antt =====
-- The rules of the single-page application, crates/ui-dioxus/src.
pub mod Kinds
pub mod Picked
pub mod DateRange
