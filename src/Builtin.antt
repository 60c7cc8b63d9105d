-- ===== src/Builtin.antt =====
-- The kinds of storage of lib/builtin.
pub mod Unix
pub mod File
pub mod Null
pub mod Tcp
