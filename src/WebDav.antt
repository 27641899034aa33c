-- ===== src/WebDav.antt =====
-- src/webdav: the parts that the CalDAV and the CardDAV client share.
pub mod Client
pub mod Delivery
pub mod Headers
pub mod Nesting
pub mod Reader
pub mod Multiget
pub mod Server
pub mod Streaming
pub mod Types
pub mod Xml
