-- ===== src/Sse.antt =====
-- pkg/sse/scanner.go: server-sent events, read line by line and written back.
pub mod Lines
pub mod Reader
pub mod Encode
