-- ===== src/Native.antt =====
-- native.go and query.go: native commands, queries, counts and scans.
pub mod Commands
pub mod Execute
pub mod Pages
pub mod Query
pub mod Scan
