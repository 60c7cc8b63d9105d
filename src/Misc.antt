-- ===== src/Misc.antt =====
-- lib/misc.c: text helpers.
pub mod Prefix
pub mod Hex
pub mod Array
pub mod Random
