-- ===== src/Tests.antt =====
-- The properties on concrete inputs, and tests of the definitions.
pub mod Data
pub mod Segments
pub mod Protocol
pub mod Streams
pub mod Routing
pub mod Compression
pub mod Hub
pub mod CommandLine
pub mod Forwarding
