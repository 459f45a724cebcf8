-- ===== src/Xv6.antt =====
-- p4 and p5: the parts of xv6 below the system calls that both projects share.
pub mod Blocks
pub mod Log
pub mod Pipe
pub mod Strings
mod LogTests
mod Tests
