-- ===== src/Procs/Calls.antt =====
-- `fork`, `clone`, `exit` and `wait` of p5/xv6-public/proc.c, and `exec` from its commit to the new image on.
-- Each call runs to its end or to its sleep before the next. Whether `kalloc` gives a kernel stack,
-- and the directory that `copyuvm` or `setupkvm` makes, are arguments.
mod Table
unfoldable pub use Table.*
use cs537_group_projects.Base.{
  ℕ, ◌+◌, ◌-◌, List, [], ◌∷◌, Option, none, some, Bool, true, false, not, ◌&&◌, ◌||◌, ◌==◌, ltb,
  if◌then◌else◌, update, first_from,
}
use cs537_group_projects.Sched.Table.{
  State, unused, embryo, sleeping, runnable, running, zombie, is_sleeping,
}

-- The first UNUSED process.
unfoldable pub unused_proc : (ℕ → Slot) → Option ℕ
unused_proc procs = first_from nproc 0 (λ i. is_unused (procs i).state)

-- The process found, made EMBRYO; none where there is none, or no kernel stack.
unfoldable pub allocproc : Bool → Kernel → Option ℕ × Kernel
allocproc kstack s = elim (unused_proc s.procs) [
  | none ↦ (none, s)
  | some j ↦
      let made = record (s.procs j) { state = embryo; pid = s.next_pid; chan = none } in
      if kstack
      then (some j, record s { procs = update s.procs j made; next_pid = s.next_pid + 1 })
      else (
        none,
        record s {
          procs = update s.procs j (record made { state = unused });
          next_pid = s.next_pid + 1;
        },
      )
]

-- The start: no process, and no entry that counts.
abbrev blank : Slot
blank = record { state = unused; pid = 0; parent = none; pgdir = 0; chan = none; killed = false }

abbrev pub pinit : Kernel
pinit = record {
  procs = λ i. blank;
  uvms = λ i. record { refcount = none; dir = 0 };
  next_pid = 1;
  dropped = [];
}

-- The entry that `userinit` finds.
abbrev pub initproc : ℕ
initproc = 0

-- `userinit`, with the directory that `setupkvm` gives. Without an entry the kernel would fault.
unfoldable pub userinit_from : ℕ → Option ℕ × Kernel → Kernel
userinit_from dir (none, t) = t
userinit_from dir (some j, t) = record t {
  procs = update t.procs j (record (t.procs j) { pgdir = dir; state = runnable });
}

unfoldable pub userinit : ℕ → Kernel → Kernel
unfolding allocproc userinit_from
userinit dir s = userinit_from dir (allocproc true s)

-- `fork` of process `cur`, from the `copyuvm` for process `j` on; the first argument is what it gives.
unfoldable pub fork_copied : Option ℕ → ℕ → ℕ → Kernel → Kernel
fork_copied none cur j t = record t {
  procs = update t.procs j (record (t.procs j) { state = unused });
}
fork_copied (some d) cur j t = record t {
  procs = update t.procs j (record (t.procs j) { pgdir = d; parent = some cur; state = runnable });
}

unfoldable pub fork_from : Option ℕ → ℕ → Option ℕ × Kernel → Kernel
unfolding fork_copied
fork_from dir cur (none, t) = t
fork_from dir cur (some j, t) = fork_copied dir cur j t

unfoldable pub fork : Bool → Option ℕ → ℕ → Kernel → Kernel
unfolding allocproc fork_from
fork kstack dir cur s = fork_from dir cur (allocproc kstack s)

-- The count of the directory that a new thread shares.
unfoldable pub count_thread : (ℕ → Uvm) → ℕ → ℕ → Uvm
count_thread uvms pgdir = elim (locate_uvmrefcount uvms pgdir) [
  | none ↦ allocate_uvmrefcount uvms pgdir 2
  | some k ↦ elim (uvms k).refcount [
    | none ↦ uvms
    | some r ↦ update uvms k (record (uvms k) { refcount = some (r + 1) })
  ]
]

unfoldable pub clone_from : ℕ → Option ℕ × Kernel → Kernel
unfolding count_thread
clone_from cur (none, t) = t
clone_from cur (some j, t) = record t {
  procs =
      update t.procs j
        (record (t.procs j) { pgdir = (t.procs cur).pgdir; parent = some cur; state = runnable });
  uvms = count_thread t.uvms (t.procs cur).pgdir;
}

unfoldable pub clone : Bool → ℕ → Kernel → Kernel
unfolding allocproc clone_from
clone kstack cur s = clone_from cur (allocproc kstack s)

-- `wakeup1` of the process `p`, or of none.
unfoldable pub wake : Option ℕ → Slot → Slot
wake none s = s
wake (some p) s =
    if is_sleeping s.state && is_process s.chan p then record s { state = runnable } else s

-- A child of the process that exits, passed to init.
unfoldable pub adopt : ℕ → ℕ → Slot → Slot
adopt cur init s = if is_process s.parent cur then record s { parent = some init } else s

-- The first child that is a zombie, and the first child.
unfoldable pub zombie_child : ℕ → (ℕ → Slot) → Option ℕ
zombie_child cur procs =
    first_from nproc 0 (λ i. is_process (procs i).parent cur && is_zombie (procs i).state)

unfoldable pub any_child : ℕ → (ℕ → Slot) → Option ℕ
any_child cur procs = first_from nproc 0 (λ i. is_process (procs i).parent cur)

abbrev pub found : Option ℕ → Bool
found none = false
found (some i) = true

-- `exit`; `init` is `initproc`.
unfoldable pub exit : ℕ → ℕ → Kernel → Ran
exit init cur s =
    if cur == init
    then panics
    else (let waking = found (zombie_child cur s.procs) in
        let passed = λ (i : ℕ).
          wake (if waking then some init else none)
            (adopt cur init (wake (s.procs cur).parent (s.procs i))) in
        ok (record s { procs = update passed cur (record (passed cur) { state = zombie }) }))

-- The child's entry is given back, behind `freevm`.
unfoldable pub clear_slot : ℕ → Kernel → Kernel
clear_slot z s = record s {
  procs =
      update s.procs z
        (record (s.procs z) { pid = 0; parent = none; killed = false; state = unused });
}

unfoldable pub reap : ℕ → Kernel → Ran
reap z s = elim (freevm (s.procs z).pgdir s) [ panics ↦ panics | ok t ↦ ok (clear_slot z t) ]

-- `wait` up to its return or its sleep.
unfoldable pub wait : ℕ → Kernel → Ran
wait cur s = elim (zombie_child cur s.procs) [
  | some z ↦ reap z s
  | none ↦
      if not (found (any_child cur s.procs)) || (s.procs cur).killed
      then ok s
      else ok (record s {
        procs = update s.procs cur (record (s.procs cur) { state = sleeping; chan = some cur });
      })
]

-- The end of `exec`, with the directory of the new image.
unfoldable pub exec_commit : ℕ → ℕ → Kernel → Ran
exec_commit dir cur s =
    freevm (s.procs cur).pgdir
      (record s { procs = update s.procs cur (record (s.procs cur) { pgdir = dir }) })
