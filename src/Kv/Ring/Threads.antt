-- ===== src/Kv/Ring/Threads.antt =====
-- `ring_submit` and `ring_get` as the steps of a thread, and any number of threads interleaved.
use cs537_group_projects.Base.{
  ℕ, suc, ◌+◌, ◌%◌, ◌<◌, ◌≡◌, List, [], ◌∷◌, ◌++◌, none, some, ◌==◌, if◌then◌else◌, get_or, set,
  replicate,
}
use cs537_group_projects.Kv.Ring.{Ring, Desc, ring_size, zero_desc}

-- Where a thread stands, with its descriptor. A thread that calls with `NULL` returns at once and
-- is `idle` throughout.
pub data Pc : Type 0 where
  idle : Pc
  submit_wait submit_lock submit_write submit_bump : Desc → Pc
  submit_unlock submit_post : Pc
  get_wait get_lock get_read : Pc
  get_bump : Desc → Pc
  get_unlock get_post : Pc

-- The shared memory, with what all calls of `ring_submit` have handed over so far and what all
-- calls of `ring_get` have taken, in the order in which `p_head` and `c_tail` moved.
pub record Shared : Type 0 where
  pub ring : Ring
  pub open ring use *
  pub sent : List Desc
  pub got : List Desc

-- A change of the ring alone.
abbrev pub with_ring : Shared → Ring → Shared
with_ring m r = record m { ring = r }

abbrev pub next_index : ℕ → ℕ
next_index i = (i + 1) % ring_size

-- One step of thread `i`.
pub data Move (i : ℕ) (m : Shared) : Pc → Shared → Pc → Type 0 where
  call_submit : (bd : Desc) → Move i m idle m (submit_wait bd)
  submit_take :
      {bd : Desc} {c : ℕ}
      → m.sem_not_full ≡ suc c
      → Move i m
          (submit_wait bd)
          (with_ring m (record m.ring { sem_not_full = c }))
          (submit_lock bd)
  submit_enter :
      {bd : Desc}
      → m.s_mutex ≡ none
      → Move i m
          (submit_lock bd)
          (with_ring m (record m.ring { s_mutex = some i }))
          (submit_write bd)
  submit_store :
      {bd : Desc}
      → Move i m
          (submit_write bd)
          (with_ring m (record m.ring { buffer = set m.buffer m.p_head bd }))
          (submit_bump bd)
  submit_advance :
      {bd : Desc}
      → Move i m
          (submit_bump bd)
          (record m {
            ring = record m.ring { p_head = next_index m.p_head };
            sent = m.sent ++ (bd ∷ []);
          })
          submit_unlock
  submit_leave : Move i m submit_unlock (with_ring m (record m.ring { s_mutex = none })) submit_post
  submit_signal :
      Move i m submit_post
        (with_ring m (record m.ring { sem_not_empty = m.sem_not_empty + 1 }))
        idle
  call_get : Move i m idle m get_wait
  get_take :
      {c : ℕ}
      → m.sem_not_empty ≡ suc c
      → Move i m get_wait (with_ring m (record m.ring { sem_not_empty = c })) get_lock
  get_enter :
      m.g_mutex ≡ none
      → Move i m get_lock (with_ring m (record m.ring { g_mutex = some i })) get_read
  get_load : Move i m get_read m (get_bump (get_or m.buffer m.c_tail zero_desc))
  get_advance :
      {bd : Desc}
      → Move i m
          (get_bump bd)
          (record m {
            ring = record m.ring { c_tail = next_index m.c_tail };
            got = m.got ++ (bd ∷ []);
          })
          get_unlock
  get_leave : Move i m get_unlock (with_ring m (record m.ring { g_mutex = none })) get_post
  get_signal :
      Move i m get_post (with_ring m (record m.ring { sem_not_full = m.sem_not_full + 1 })) idle

abbrev pub update : (ℕ → Pc) → ℕ → Pc → ℕ → Pc
update f i p j = if i == j then p else f j

pub record System : Type 0 where
  pub mem : Shared
  pub pc : ℕ → Pc

pub data Step (n : ℕ) (s : System) : System → Type 0 where
  pick :
      (i : ℕ) {m : Shared} {p : Pc}
      → i < n
      → Move i s.mem (s.pc i) m p
      → Step n s (record { mem = m; pc = update s.pc i p })

-- The client clears the whole area before it calls `init_ring`.
abbrev pub cleared : Ring
cleared = record {
  p_head = 0;
  c_tail = 0;
  buffer = replicate ring_size zero_desc;
  sem_not_full = 0;
  sem_not_empty = 0;
  s_mutex = none;
  g_mutex = none;
}

-- The ring of `init_client`, before any thread calls.
abbrev pub start_ring : Ring
start_ring = record cleared { sem_not_full = ring_size }

abbrev pub start : System
start = record { mem = record { ring = start_ring; sent = []; got = [] }; pc = λ _. idle }

pub data Reach (n : ℕ) : System → Type 0 where
  here : Reach n start
  next : {s t : System} → Reach n s → Step n s t → Reach n t
