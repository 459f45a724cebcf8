-- ===== src/Sched/Mutex.antt =====
-- `sys_macquire` and `sys_mrelease` of p5/xv6-public/sysproc.c and `minit` of mutex.c, from the
-- physical address of the mutex on. The spinlock of the mutex is held throughout each round of
-- `sys_macquire`'s loop and throughout `sys_mrelease`.
use cs537_group_projects.Base.{
  ℕ, zero, suc, ◌+◌, ◌-◌, List, Bool, true, false, ◌==◌, ltb, if◌then◌else◌, get_or, set,
}
use cs537_group_projects.Sched.Table.{State, Proc, wakeup1}

-- `mutex`, without its spinlock.
pub record Mutex : Type 0 where
  pub locked : Bool
  pub owner : ℕ

unfoldable pub minit : Mutex
minit = record { locked = false; owner = 0 }

-- `curproc->locks_held[curproc->num_locks_held++] = m_phys`
abbrev pub hold : ℕ → Proc → Proc
hold lock p = record p {
  locks_held = set p.locks_held p.num_locks_held lock;
  num_locks_held = p.num_locks_held + 1;
}

-- A round of the loop: the process goes to sleep, or takes the mutex and leaves the loop. `true`:
-- it has taken it.
unfoldable pub macquire_round : ℕ → Mutex → Proc → Mutex × Proc × Bool
macquire_round lock m p =
    if m.locked
    then (m, record p { chan = lock; state = State.sleeping }, false)
    else (record m { locked = true; owner = p.pid }, hold lock p, true)

-- The last lock takes the place of the one at `i`.
abbrev pub release_at : ℕ → Proc → Proc
release_at i p =
    let last = p.num_locks_held - 1 in
    record p {
      locks_held = set (set p.locks_held i (get_or p.locks_held last 0)) last 0;
      num_locks_held = last;
    }

-- The loop over `i`, with as many rounds left as there were locks at first.
unfoldable pub release_locks : ℕ → ℕ → ℕ → Proc → Proc
release_locks zero i lock p = p
release_locks (suc n) i lock p =
    let rest =
      release_locks n (i + 1) lock
        (if get_or p.locks_held i 0 == lock then release_at i p else p) in
    if ltb i p.num_locks_held then rest else p

-- The process that calls has left the table's list of the others.
unfoldable pub mrelease : ℕ → Mutex → Proc → List Proc → Mutex × Proc × List Proc
unfolding release_locks wakeup1
mrelease lock m p others = (
  record m { locked = false; owner = 0 },
  release_locks p.num_locks_held 0 lock p,
  wakeup1 lock others,
)
