-- ===== src/Handler.antt =====
-- internal/handler: the HTTP handlers.
pub mod Orders
pub mod Pages
pub mod Access
pub mod PageAccess
pub mod CacheAside
pub mod Session
pub mod Numerals
pub mod Tokens
pub mod Refresh
pub mod Admission
pub mod Silent
pub mod System
