-- ===== src/HttpCommon.antt =====
-- pkg/lb/httpcommon.go: the helpers on HTTP texts. `Paths` normalises request paths, `Fields` reads
-- the numbers and groups of header fields and status lines, `Head` reads and `Transfer` writes
-- headers and bodies.
pub mod Paths
pub mod Transfer
pub mod Header
pub mod Head
pub mod Fields
