-- ===== src/Common.antt =====
-- src/common
pub mod Compression
