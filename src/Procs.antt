-- ===== src/Procs.antt =====
-- p5: the processes and threads of xv6, and the page directories that they share.
pub mod Calls
pub mod Users
pub mod Shared
pub mod Fresh
pub mod Share
pub mod Leave
pub mod Release
pub mod Room
pub mod Keeps
pub mod Alloc
pub mod Start
pub mod Exit
pub mod End
pub mod Tree
pub mod Family
pub mod Run
pub mod Orphans
mod Tests
