-- ===== src/Tests.antt =====
-- Each theorem applied to concrete data: a server with one storage, one cached value, a few names.
mod Data
mod CacheTests
mod RouteTests
mod IoTests
mod LockTests
mod TextTests
mod QueueTests
mod ServerTests
mod MemoryTests
mod RunTests
mod WireTests
mod ValueTests
mod ProgramTests
