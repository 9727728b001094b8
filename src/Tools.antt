-- ===== src/Tools.antt =====
-- Parts of src/tools.
pub mod Encryption
