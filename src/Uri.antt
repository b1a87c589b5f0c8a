-- ===== src/Uri.antt =====
-- Package uri: canonical resource addresses and typed record keys.
pub mod Escape
pub mod Utf8
pub mod Text
pub mod Base64
pub mod Decimal
pub mod Address
pub mod Key
