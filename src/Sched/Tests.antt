-- ===== src/Sched/Tests.antt =====
-- A table of three processes on which the theorems on the scheduler are applied.
use cs537_group_projects.Base.{
  ℕ, ◌-◌, ◌^◌, ◌≡◌, refl, ◌≤◌, List, [], ◌∷◌, replicate, some, false, arith, get_elem?,
}
use cs537_group_projects.Sched.Table.{
  State, bias, Proc, lower, lower_all, held, elevate, find_min, findminnice, choose, schedule,
}
use cs537_group_projects.Sched.Priority.{at_least, both, every, waits_from, elevate-at_least}
use cs537_group_projects.Sched.Choice.{Runnable, schedule-least}
use cs537_group_projects.Sched.Mutex.{minit, macquire_round, mrelease}
use cs537_group_projects.Sched.Inherit.{macquire-inherits, mrelease-macquire}

-- -5
abbrev minus_five : ℕ
minus_five = 2 ^ 32 - 5

abbrev ready_at : ℕ → ℕ → Proc
ready_at pid nice = record {
  pid = pid;
  state = State.runnable;
  chan = 0;
  killed = false;
  sleepticks = 0;
  locks_held = replicate 16 0;
  num_locks_held = 0;
  nice = nice;
  elevated_nice = 0;
}

-- It holds the mutex at 4096.
abbrev holder : Proc
holder = record (ready_at 1 10) { locks_held = 4096 ∷ replicate 15 0; num_locks_held = 1 }

abbrev waiter : Proc
waiter = record (ready_at 2 minus_five) { state = State.sleeping; chan = 4096 }

abbrev bystander : Proc
bystander = ready_at 3 0

abbrev table : List Proc
table = bystander ∷ waiter ∷ holder ∷ []

abbrev sleeper : Proc
sleeper = record (ready_at 4 0) { state = State.sleeping; chan = 77; sleepticks = 3 }

-- The holder runs first, at the waiter's nice.
schedules : (schedule table).1 ≡ some 2
unfolding schedule findminnice find_min elevate lower_all lower choose
schedules = refl

bystander_runs : get_elem? (schedule table).0 0 ≡ some bystander
unfolding schedule findminnice find_min elevate lower_all lower choose
bystander_runs = refl

waits :
    (macquire_round 4096 (macquire_round 4096 minit (ready_at 1 10)).0 (ready_at 2 minus_five)).1
    ≡ waiter
unfolding macquire_round minit
waits = refl

free_at_first : minit.locked ≡ false
unfolding minit
free_at_first = refl

elevate-at_least_example :
    at_least minus_five (elevate table holder).elevated_nice
    ≡ both
        (at_least minus_five 10)
        (every (λ lock. every (waits_from minus_five lock) table) (held holder))
elevate-at_least_example = elevate-at_least minus_five table holder

schedule-least_example :
    (i : ℕ) × (p : Proc) × ((schedule table).1 ≡ some i)
    × Runnable (schedule table).0 i p
    × (bias p.elevated_nice ≤ bias 0)
schedule-least_example = schedule-least table 0 bystander (bystander_runs, refl) (omega arith)

at_place :
    get_elem? table 1
    ≡ some
        (macquire_round 4096
          (macquire_round 4096 minit (ready_at 1 10)).0
          (ready_at 2 minus_five)).1
unfolding macquire_round minit
at_place = refl

macquire-inherits_example :
    bias (elevate table (macquire_round 4096 minit (ready_at 1 10)).1).elevated_nice
    ≤ bias minus_five
macquire-inherits_example =
    macquire-inherits 4096 minit (ready_at 1 10) (ready_at 2 minus_five) table 1 free_at_first
      (omega arith) at_place

mrelease-macquire_example :
    (mrelease 4096 minit (macquire_round 4096 minit bystander).1 table).1 ≡ bystander
mrelease-macquire_example =
    mrelease-macquire 4096 minit minit bystander table free_at_first (omega arith) refl
      (λ k lt. absurd (omega (arith, lt)))
