-- ===== src/Fmp4.antt =====
-- crates/packager/src/fmp4: the writers of init and media segments.
pub mod Writer
pub mod Boxes
pub mod Media
pub mod Init
