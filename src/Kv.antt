-- ===== src/Kv.antt =====
-- p6: a key-value server behind a ring buffer in shared memory.
pub mod Store
pub mod Ring
pub mod Server
pub mod Client
mod Tests
mod ClientTests
