-- ===== src/Kv/Ring/Invariant/Defs.antt =====
-- What a thread holds at each point of its call, and the invariant over all threads.
use cs537_group_projects.Base.{ℕ, ◌+◌, ◌%◌, ◌<◌, ◌≡◌, ◌++◌, some, Bool, true, false, length, get_or}
use cs537_group_projects.Kv.Ring.{ring_size, zero_desc}
use cs537_group_projects.Kv.Ring.Threads.{
  Pc, Shared, submit_lock, submit_write, submit_bump, submit_unlock, submit_post, get_lock,
  get_read, get_bump, get_unlock, get_post,
}
use cs537_group_projects.Kv.Ring.Window.{window}
use cs537_group_projects.Kv.Ring.Invariant.Sum.{sum}

-- A slot counted out of `sem_not_full` that `p_head` has not passed.
abbrev pub slot_taken : Pc → ℕ
slot_taken (submit_lock _) = 1
slot_taken (submit_write _) = 1
slot_taken (submit_bump _) = 1
slot_taken _ = 0

-- An item that `p_head` has passed and `sem_not_empty` does not count yet.
abbrev pub item_unposted : Pc → ℕ
item_unposted submit_unlock = 1
item_unposted submit_post = 1
item_unposted _ = 0

-- An item counted out of `sem_not_empty` that `c_tail` has not passed.
abbrev pub item_taken : Pc → ℕ
item_taken get_lock = 1
item_taken get_read = 1
item_taken (get_bump _) = 1
item_taken _ = 0

-- A slot that `c_tail` has passed and `sem_not_full` does not count yet.
abbrev pub slot_unposted : Pc → ℕ
slot_unposted get_unlock = 1
slot_unposted get_post = 1
slot_unposted _ = 0

-- Between the lock and the unlock of `s_mutex`, and of `g_mutex`.
abbrev pub submitting : Pc → Bool
submitting (submit_write _) = true
submitting (submit_bump _) = true
submitting submit_unlock = true
submitting _ = false

abbrev pub getting : Pc → Bool
getting get_read = true
getting (get_bump _) = true
getting get_unlock = true
getting _ = false

-- What the descriptor that a thread has copied says of the ring.
abbrev pub IsCopied : Shared → Pc → Type 0
IsCopied m (submit_bump bd) = get_or m.buffer m.p_head zero_desc ≡ bd
IsCopied m (get_bump bd) = get_or m.buffer m.c_tail zero_desc ≡ bd
IsCopied m _ = Unit

-- `len` items lie in the ring, from `c_tail` up to `p_head`.
pub record Inv (n : ℕ) (m : Shared) (pc : ℕ → Pc) : Type 0 where
  pub len : ℕ
  pub storage : length m.buffer ≡ ring_size
  pub tail : m.c_tail < ring_size
  pub head : m.p_head ≡ (m.c_tail + len) % ring_size
  pub slots : m.sem_not_full + sum slot_taken n pc + len + sum slot_unposted n pc ≡ ring_size
  pub items : m.sem_not_empty + sum item_unposted n pc + sum item_taken n pc ≡ len
  pub content : m.sent ≡ m.got ++ window m.buffer m.c_tail len
  pub copied : (j : ℕ) → IsCopied m (pc j)
  pub s_held : (j : ℕ) → submitting (pc j) ≡ true → m.s_mutex ≡ some j
  pub g_held : (j : ℕ) → getting (pc j) ≡ true → m.g_mutex ≡ some j
  pub s_owner : (j : ℕ) → m.s_mutex ≡ some j → (j < n) × (submitting (pc j) ≡ true)
  pub g_owner : (j : ℕ) → m.g_mutex ≡ some j → (j < n) × (getting (pc j) ≡ true)
