-- ===== src/Sched/Table.antt =====
-- The process table of p5/xv6-public/proc.c as far as the scheduler, `nice`, `kill` and the wake-ups
-- read and write it, and those operations. An `int` is its bit pattern of 32 bits; the table's lock
-- is held throughout each operation.
use cs537_group_projects.Base.{
  ℕ, suc, ◌+◌, ◌-◌, ◌%◌, ◌^◌, List, [], ◌∷◌, Option, none, some, Bool, true, false, ◌==◌, ltb,
  if◌then◌else◌, take,
}

-- `a < b` of two `int`s
abbrev pub bias : ℕ → ℕ
bias a = (a + 2 ^ 31) % 2 ^ 32

abbrev pub lt_int : ℕ → ℕ → Bool
lt_int a b = ltb (bias a) (bias b)

-- `enum procstate`
pub data State : Type 0 where
  unused : State
  embryo : State
  sleeping : State
  runnable : State
  running : State
  zombie : State

abbrev pub is_sleeping : State → Bool
is_sleeping sleeping = true
is_sleeping unused = false
is_sleeping embryo = false
is_sleeping runnable = false
is_sleeping running = false
is_sleeping zombie = false

abbrev pub is_runnable : State → Bool
is_runnable runnable = true
is_runnable unused = false
is_runnable embryo = false
is_runnable sleeping = false
is_runnable running = false
is_runnable zombie = false

pub record Proc : Type 0 where
  pub pid : ℕ
  pub state : State
  pub chan : ℕ
  pub killed : Bool
  pub sleepticks : ℕ
  pub locks_held : List ℕ
  pub num_locks_held : ℕ
  pub nice : ℕ
  pub elevated_nice : ℕ

-- The inner loop of `findminnice` over `q`, for one lock, with the elevated value so far.
unfoldable pub lower : ℕ → List Proc → ℕ → ℕ
lower lock [] e = e
lower lock (q ∷ qs) e = lower lock qs (
    if is_sleeping q.state
    then (if q.chan == lock then (if lt_int q.nice e then q.nice else e) else e)
    else e)

-- The loop over the locks.
unfoldable pub lower_all : List ℕ → List Proc → ℕ → ℕ
unfolding lower
lower_all [] table e = e
lower_all (lock ∷ locks) table e = lower_all locks table (lower lock table e)

abbrev pub held : Proc → List ℕ
held p = take p.num_locks_held p.locks_held

unfoldable pub elevate : List Proc → Proc → Proc
unfolding lower_all
elevate table p = record p { elevated_nice = lower_all (held p) table p.nice }

-- The outer loop over `p`, with `minnice` so far. It changes elevated values only, which the inner
-- loops do not read: these go over `table` as it was.
unfoldable pub find_min : List Proc → List Proc → ℕ → List Proc × ℕ
unfolding elevate
find_min table [] minnice = ([], minnice)
find_min table (p ∷ ps) minnice =
    if is_runnable p.state
    then (let raised = elevate table p in
        let rest =
          find_min table ps
            (if lt_int raised.elevated_nice minnice then raised.elevated_nice else minnice) in
        (raised ∷ rest.0, rest.1))
    else (let rest = find_min table ps minnice in (p ∷ rest.0, rest.1))

unfoldable pub findminnice : List Proc → List Proc × ℕ
unfolding find_min
findminnice table = find_min table table 19

-- The test of the loop in `scheduler`, and the first process that passes it, by its place.
abbrev pub is_chosen : ℕ → Proc → Bool
is_chosen minnice p =
    if is_runnable p.state then (if lt_int minnice p.elevated_nice then false else true) else false

unfoldable pub choose : ℕ → List Proc → Option ℕ
choose minnice [] = none
choose minnice (p ∷ ps) =
    let rest = choose minnice ps in
    if is_chosen minnice p then some 0 else elim rest [ none ↦ none | some i ↦ some (suc i) ]

-- The first choice of a pass of `scheduler` over the table.
unfoldable pub schedule : List Proc → List Proc × Option ℕ
unfolding findminnice choose
schedule table = let (raised, minnice) = findminnice table in (raised, choose minnice raised)

-- `sys_nice`, from the value of its argument on.
unfoldable pub sys_nice : ℕ → Proc → Proc
sys_nice inc p =
    let sum = (inc + p.nice) % 2 ^ 32 in
    let next =
      if lt_int 19 sum then 19 else (if lt_int sum (2 ^ 32 - 20) then 2 ^ 32 - 20 else sum) in
    record p { nice = next }

unfoldable pub wakeup1 : ℕ → List Proc → List Proc
wakeup1 chan [] = []
wakeup1 chan (p ∷ ps) =
    let rest = wakeup1 chan ps in
    (if is_sleeping p.state
      then (if p.chan == chan then record p { state = runnable } else p)
      else p)
    ∷ rest

-- The body of the loop. The first argument is the address of `ticks`.
abbrev pub notify_one : ℕ → Proc → Proc
notify_one ticks p =
    if is_sleeping p.state
    then (if p.chan == ticks
        then (if p.sleepticks == 0
            then record p { state = runnable }
            else record p { sleepticks = (p.sleepticks + 2 ^ 32 - 1) % 2 ^ 32 })
        else p)
    else p

unfoldable pub sleep_proc_notify : ℕ → List Proc → List Proc
sleep_proc_notify ticks [] = []
sleep_proc_notify ticks (p ∷ ps) = notify_one ticks p ∷ sleep_proc_notify ticks ps

-- `none` is -1, with the table as it was.
unfoldable pub kill : ℕ → List Proc → Option (List Proc)
kill pid [] = none
kill pid (p ∷ ps) =
    let rest = kill pid ps in
    if p.pid == pid
    then some
        (record p { killed = true; state = if is_sleeping p.state then runnable else p.state } ∷ ps)
    else elim rest [ none ↦ none | some qs ↦ some (p ∷ qs) ]
