-- ===== src/Sql.antt =====
-- Parts of src/sql: the columns that are JSON or encrypted (Fields), what a database is asked for
-- (Adapter), and the operations of a table (Table).
pub mod Fields
pub mod Adapter
pub mod Table
