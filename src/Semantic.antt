-- ===== src/Semantic.antt =====
-- pkg/semantic: the typed segments of a stream, their merging, and their way from and to JSON.
pub mod Types
pub mod Chat
pub mod Responses
pub mod Segment
pub mod Json
pub mod Metadata
pub mod ChatParser
pub mod ResponsesParser
pub mod Parser
pub mod Serializer
