-- ===== src/HttpBackend.antt =====
-- pkg/lb/httpbackend.go: `Select` chooses a server, `Serve` makes one call of a backend, `Forward`
-- rewrites the request's headers, `Exchange` exchanges request and response, `Fork` reloads.
pub mod Select
pub mod Serve
pub mod Fork
pub mod Exchange
pub mod Forward
