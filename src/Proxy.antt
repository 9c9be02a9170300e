-- ===== src/Proxy.antt =====
-- pkg/proxy/server.go: the choice of an upstream for a request.
pub mod Upstreams
pub mod Monitor
pub mod Headers
pub mod Bodies
pub mod Transparent
pub mod Completions
pub mod Routing
pub mod Paths
