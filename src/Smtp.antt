-- ===== src/Smtp.antt =====
-- internal/smtpserver: the SMTP backends and sessions.
pub mod Codec
pub mod Backend
pub mod Remote
pub mod Local
pub mod Access
pub mod Limit
pub mod Keeps
