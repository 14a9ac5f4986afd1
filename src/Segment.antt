-- ===== src/Segment.antt =====
-- crates/packager/src/segment: the splitter.
pub mod Splitter
