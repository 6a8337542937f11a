-- ===== src/Server.antt =====
-- src/gamehub_server: the index that is served, and the saves that clients upload.
pub mod Suffix
pub mod Bindings
pub mod Scan
pub mod Lock
pub mod Multipart
pub mod Backups
pub mod Upload
pub mod Repository
