-- ===== src/CardDav.antt =====
-- src/carddav
pub mod Client
pub mod Conditional
pub mod EndToEnd
pub mod Facade
pub mod Mapping
pub mod Queries
pub mod Reads
pub mod Streaming
pub mod Types
pub mod Writes
