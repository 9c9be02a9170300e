-- ===== src/Compress.antt =====
-- pkg/compress/compress.go: the choice of an encoding and the compressing response writer.
pub mod Accept
pub mod Codec
pub mod Writer
