-- ===== src/Wmap.antt =====
-- p4/xv6-public: the memory mappings of a process (`sys_wmap` and its kin of sysproc.c, the page
-- fault of trap.c), over `walkpgdir` of vm.c and the reference counts of file.c.
-- A `uint`, and an `int` by its bit pattern, is a number below 2 ^ 32, and arithmetic on them wraps.
pub mod State
pub mod Map
pub mod Exit
pub mod Fork
pub mod Unmap
pub mod Unlink
pub mod Unload
pub mod Info
pub mod Remap
pub mod Search
pub mod Disjoint
pub mod Tables
pub mod Failure
pub mod Fault
mod Tests
mod FaultTests
mod LifeTests
