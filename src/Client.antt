-- ===== src/Client.antt =====
-- client.go: the client's configuration and its read, write and delete calls.
pub mod Backoff
pub mod Config
pub mod Connection
pub mod BatchLoop
pub mod Reads
pub mod Writes
pub mod Deletes
