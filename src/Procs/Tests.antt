-- ===== src/Procs/Tests.antt =====
-- Tests of the processes of p5/xv6-public, and the examples of what is proved about them.
use cs537_group_projects.Base.{
  ◌≡◌, refl, none, some, true, false, [], ◌∷◌, arith, first_from, update,
}
use cs537_group_projects.Sched.Table.{running}
use cs537_group_projects.Procs.Calls.{
  freevm, give_back, unused_proc, count_thread, allocate_uvmrefcount, locate_uvmrefcount,
  free_entry, Kernel, ok, pinit, initproc, userinit, clone, wait, exec_commit, exit,
}
use cs537_group_projects.Procs.Users.{users}
use cs537_group_projects.Procs.Shared.{Shared}
use cs537_group_projects.Procs.Keeps.{Exact}
use cs537_group_projects.Procs.Start.{New}
use cs537_group_projects.Procs.Tree.{Rooted}
use cs537_group_projects.Procs.Orphans.{never_orphaned}
use cs537_group_projects.Procs.Run.{
  Runs, Step, moves, execs, clones, Reachable, starts, steps, freed_exactly, counted_users,
  never_panics,
}

-- The first process, with directory 9, running.
abbrev booted : Kernel
booted = userinit 9 pinit

abbrev one_running : Kernel
one_running = record booted {
  procs =
      update booted.procs 0
        (record (booted.procs 0) { state = running; chan = none; killed = false });
}

first_runs : Step booted one_running
unfolding userinit unused_proc first_from update
first_runs = moves 0 running none false booted refl refl refl refl

one_running-Reachable : Reachable 9 one_running
one_running-Reachable = steps booted one_running starts first_runs

one_running-Runs : Runs one_running 0
unfolding userinit update
one_running-Runs = record { inside = omega arith; state = refl }

-- A thread of it, in entry 1.
abbrev two_threads : Kernel
two_threads = clone true 0 one_running

two_threads-Reachable : Reachable 9 two_threads
two_threads-Reachable =
    steps one_running two_threads one_running-Reachable (clones true 0 one_running one_running-Runs)

shared_count : (two_threads.uvms 0).refcount ≡ some 2
unfolding clone unused_proc first_from count_thread allocate_uvmrefcount locate_uvmrefcount
    free_entry update userinit
shared_count = refl

counted_users_example : Shared two_threads.procs two_threads.uvms
counted_users_example = counted_users 9 two_threads (λ e. omega (arith, e)) two_threads-Reachable

-- The thread runs, and executes another program.
abbrev thread_running : Kernel
thread_running = record two_threads {
  procs =
      update two_threads.procs 1
        (record (two_threads.procs 1) { state = running; chan = none; killed = false });
}

thread_starts : Step two_threads thread_running
unfolding clone unused_proc first_from update userinit
thread_starts = moves 1 running none false two_threads refl refl refl refl

thread_running-Runs : Runs thread_running 1
unfolding update
thread_running-Runs = record { inside = omega arith; state = refl }

thread_fresh : New (some 5) thread_running.procs
unfolding users clone unused_proc first_from update userinit
thread_fresh = (λ e. omega (arith, e), refl)

never_panics_example :
    ((t : Kernel) × (wait 1 thread_running ≡ ok t))
    × ((t : Kernel) × (exec_commit 5 1 thread_running ≡ ok t))
    × ((t : Kernel) × (exit initproc 1 thread_running ≡ ok t))
never_panics_example =
    never_panics 9 1 5 thread_running (λ e. omega (arith, e))
      (steps two_threads thread_running two_threads-Reachable thread_starts) thread_running-Runs
      (λ e. omega (arith, e)) thread_fresh

-- The first process alone executes another program: its directory is given back.
abbrev executed : Kernel
executed = record one_running {
  procs = update one_running.procs 0 (record (one_running.procs 0) { pgdir = 5 });
  dropped = 9 ∷ [];
}

executes : exec_commit 5 0 one_running ≡ ok executed
unfolding exec_commit freevm give_back locate_uvmrefcount first_from userinit unused_proc update
executes = refl

alone : New (some 5) one_running.procs
unfolding users first_from update userinit unused_proc
alone = (λ e. omega (arith, e), refl)

freed_exactly_example : Exact one_running executed
freed_exactly_example =
    freed_exactly 9 one_running executed (λ e. omega (arith, e)) one_running-Reachable
      (execs 5 0 one_running executed one_running-Runs alone executes)

never_orphaned_example : Rooted thread_running.procs
never_orphaned_example =
    never_orphaned 9 thread_running (λ e. omega (arith, e))
      (steps two_threads thread_running two_threads-Reachable thread_starts)
