-- ===== src/Smtp.antt =====
-- src/core/mail_proxy/smtp
pub mod RateLimiter
pub mod Retry
pub mod Email
pub mod Sender
pub mod Pool
pub mod Attachments
