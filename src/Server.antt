-- ===== src/Server.antt =====
-- crates/server/src: what the server does with names and bodies, without HTTP.
pub mod PermitBody
pub mod SegmentName
mod Tests
