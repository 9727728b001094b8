-- ===== src/Cache.antt =====
-- The cache of attachments, src/core/mail_proxy/smtp/cache.py: a memory cache, a disk cache, and the
-- two tiers over them. A content is a list of bytes; a time is a natural number of one unit, which the
-- time to live counts in too.
pub mod Memory
pub mod Disk
pub mod Tiered
