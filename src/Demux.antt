-- ===== src/Demux.antt =====
-- crates/packager/src/demux: what is read from the source MP4.
pub mod Source
pub mod Boxes
pub mod Locations
pub mod SampleTable
pub mod Sample
pub mod Moov
