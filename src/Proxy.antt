-- ===== src/Proxy.antt =====
-- The commands of src/core/mail_proxy/proxy.py that put messages into the queue.
pub mod Priority
pub mod Enqueue
pub mod Commands
pub mod SyncStatus
