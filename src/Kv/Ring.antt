-- ===== src/Kv/Ring.antt =====
-- p6/ring_buffer.h and p6/ring_buffer.c: the ring in shared memory, and the threads of client and
-- server that call `ring_submit` and `ring_get` on it, a shared access at a time.
-- The semaphores and mutexes of pthreads are not code of the repository. A semaphore is its count,
-- and `sem_wait` a step that is taken only at a positive count; a mutex is its owner, if any, and
-- locking is a step that is taken only where there is none.
pub mod Threads
pub mod Window
pub mod Invariant
pub mod Fifo
use cs537_group_projects.Base.{ℕ, List, Option, none, some, Bool, true, false, ◌==◌}

abbrev pub ring_size : ℕ
ring_size = 1024

-- `enum REQUEST_TYPE`. The field in shared memory can hold any number.
abbrev pub put_type : ℕ
put_type = 0

abbrev pub get_type : ℕ
get_type = 1

-- `struct buffer_descriptor`
pub record Desc : Type 0 where
  pub req_type : ℕ
  pub k : ℕ
  pub v : ℕ
  pub res_off : ℕ
  pub ready : ℕ

abbrev pub zero_desc : Desc
zero_desc = record { req_type = 0; k = 0; v = 0; res_off = 0; ready = 0 }

-- `struct ring`, less its padding and `p_tail` and `c_head`, which no code reads or writes.
pub record Ring : Type 0 where
  pub p_head : ℕ
  pub c_tail : ℕ
  pub buffer : List Desc
  pub sem_not_full : ℕ
  pub sem_not_empty : ℕ
  pub s_mutex : Option ℕ
  pub g_mutex : Option ℕ

-- The ring that a pointer leads to, and whether the call returned 0. The indices are left as they
-- stand in memory.
unfoldable pub init_ring : Option Ring → Option Ring × Bool
init_ring none = (none, false)
init_ring (some r) = (
  some (record r { sem_not_full = ring_size; sem_not_empty = 0; s_mutex = none; g_mutex = none }),
  true,
)
