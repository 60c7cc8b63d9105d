-- ===== src/Infra.antt =====
-- lib/infra: what the servers stand on.
pub mod Tree
pub mod NamedMutex
pub mod TaskQueue
pub mod Resources
pub mod Timestamp
