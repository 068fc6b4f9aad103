-- ===== src/Http.antt =====
-- The HTTP output plugin, plugins/output_http.
pub mod Reader
pub mod Base64
pub mod Escape
pub mod Types
pub mod Client
pub mod Options
pub mod Stream
pub mod Response
pub mod Snapshot
pub mod Files
pub mod Json
pub mod Server
pub mod Command
pub mod ClientTable
mod CommandTests
mod Tests
