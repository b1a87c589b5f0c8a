-- ===== src/Types.antt =====
-- types.go and wire.go: keys, addresses, documents, merge programs, operations and results.
pub mod Keys
pub mod Documents
pub mod Programs
pub mod Operations
pub mod Outcomes
pub mod Valid
pub mod Failures
