-- ===== src/Procs/Calls/Table.antt =====
-- The state that p5/xv6-public/proc.c and vm.c keep for processes, and the counts of the users of a page
-- directory of vm.c, with `freevm`. A process and an entry of the counts are named by their place;
-- `parent` is none for 0, and a count is none for -1.
use cs537_group_projects.Base.{
  ℕ, ◌-◌, List, ◌∷◌, Option, none, some, Bool, true, false, ◌==◌, ltb, if◌then◌else◌, update,
  first_from,
}
use cs537_group_projects.Sched.Table.{State, unused, embryo, sleeping, runnable, running, zombie}

abbrev pub nproc : ℕ
nproc = 64

abbrev pub is_unused : State → Bool
is_unused unused = true
is_unused embryo = false
is_unused sleeping = false
is_unused runnable = false
is_unused running = false
is_unused zombie = false

abbrev pub is_zombie : State → Bool
is_zombie zombie = true
is_zombie unused = false
is_zombie embryo = false
is_zombie sleeping = false
is_zombie runnable = false
is_zombie running = false

-- A process, as far as these calls use it. `chan` is the process that it sleeps on.
pub record Slot : Type 0 where
  pub state : State
  pub pid : ℕ
  pub parent : Option ℕ
  pub pgdir : ℕ
  pub chan : Option ℕ
  pub killed : Bool

-- `struct uvmdesc`
pub record Uvm : Type 0 where
  pub refcount : Option ℕ
  pub dir : ℕ

-- `dropped` are the directories that `freevm` has given back, the latest first.
pub record Kernel : Type 0 where
  pub procs : ℕ → Slot
  pub uvms : ℕ → Uvm
  pub next_pid : ℕ
  pub dropped : List ℕ

abbrev pub is_process : Option ℕ → ℕ → Bool
is_process none i = false
is_process (some j) i = i == j

abbrev pub counts : Uvm → ℕ → Bool
counts u pgdir = elim u.refcount [ none ↦ false | some r ↦ u.dir == pgdir ]

-- The loops over a table are `first_from`, with the test of their body.
unfoldable pub locate_uvmrefcount : (ℕ → Uvm) → ℕ → Option ℕ
locate_uvmrefcount uvms pgdir = first_from nproc 0 (λ i. counts (uvms i) pgdir)

abbrev pub is_free : Uvm → Bool
is_free u = elim u.refcount [ none ↦ true | some r ↦ false ]

unfoldable pub free_entry : (ℕ → Uvm) → Option ℕ
free_entry uvms = first_from nproc 0 (λ i. is_free (uvms i))

-- Without an entry that is free, nothing is counted; `clone` does not look at the result.
unfoldable pub allocate_uvmrefcount : (ℕ → Uvm) → ℕ → ℕ → ℕ → Uvm
allocate_uvmrefcount uvms pgdir refcount = elim (free_entry uvms) [
  | none ↦ uvms
  | some k ↦ update uvms k (record { refcount = some refcount; dir = pgdir })
]

-- The kernel afterwards, or a panic.
pub data Ran : Type 0 where
  ok : Kernel → Ran
  panics : Ran

-- `freevm` from `uint i` on.
unfoldable pub give_back : ℕ → Kernel → Ran
give_back pgdir s = if pgdir == 0 then panics else ok (record s { dropped = pgdir ∷ s.dropped })

unfoldable pub freevm : ℕ → Kernel → Ran
unfolding give_back
freevm pgdir s = elim (locate_uvmrefcount s.uvms pgdir) [
  | none ↦ give_back pgdir s
  | some k ↦ elim (s.uvms k).refcount [
    | none ↦ ok s
    | some r ↦
        if ltb r 1
        then panics
        else (if r - 1 == 0
            then give_back pgdir
                (record s { uvms = update s.uvms k (record (s.uvms k) { refcount = none }) })
            else ok (record s {
              uvms = update s.uvms k (record (s.uvms k) { refcount = some (r - 1) });
            }))
  ]
]
