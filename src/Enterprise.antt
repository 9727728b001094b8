-- ===== src/Enterprise.antt =====
-- Parts of src/enterprise/mail_proxy: what is read from received mail.
pub mod Pec
pub mod Receipts
pub mod Bounce
pub mod Receiver
