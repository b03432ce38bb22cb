-- ===== src/HttpFrontend.antt =====
-- pkg/lb/httpfrontend.go: wildcard patterns, routes, the reading of a request, the failover to a
-- backup, the call that joins these, and client connections.
pub mod Pattern
pub mod Route
pub mod Request
pub mod Failover
pub mod Serve
pub mod Connection
pub mod Fork
