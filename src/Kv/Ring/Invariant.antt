-- ===== src/Kv/Ring/Invariant.antt =====
-- The invariant of the ring and its threads: how the two semaphores, the two mutexes, the two
-- indices and the slots hang together whatever each thread is doing.
mod Sum
mod Defs
mod Moves
pub use Sum.{sum, sum-update, sum-ge, sum-zero}
pub use Defs.*
pub use Moves.{Step-Inv, start-Inv, Reach-Inv}
