-- ===== src/Sched.antt =====
-- p5: priorities in the scheduler of xv6.
pub mod Table
pub mod Nice
pub mod Priority
pub mod Choice
pub mod Wakeup
pub mod Kill
pub mod Mutex
pub mod Inherit
mod Tests
