-- ===== src/Index/Builder.antt =====
-- crates/packager/src/index/builder.rs: the pipeline that makes an `.idx` file.
pub mod Counting
pub mod Encode
pub mod Hash
pub mod Build
pub mod Measured
pub mod Serialise
