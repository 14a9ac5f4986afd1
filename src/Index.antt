-- ===== src/Index.antt =====
-- crates/packager/src/index: the `.idx` file.
pub mod Format
pub mod View
pub mod Builder
pub mod RoundTrip
