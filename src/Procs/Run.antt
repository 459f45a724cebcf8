-- ===== src/Procs/Run.antt =====
-- Runs of the processes of p5/xv6-public: the calls that running processes make, in any order, and
-- the moves of the scheduler, of `sleep` and of the wake-ups between them.
use cs537_group_projects.Base.{
  ℕ, ◌<◌, ◌≡◌, ◌≢◌, inl, inr, refl, sym, ap, subst, ◌∙◌, Option, some, Bool, true, false, not, ◌&&◌,
  ◌||◌, if◌then◌else◌, Option-cases, update, FirstIn, first_from-FirstIn,
}
use cs537_group_projects.Sched.Table.{State, sleeping, running}
use cs537_group_projects.Procs.Calls.{
  Slot, Kernel, Ran, ok, nproc, is_unused, is_zombie, is_process, fork, clone, zombie_child,
  any_child, found, exit, wait, exec_commit, initproc, pinit, userinit,
}
use cs537_group_projects.Procs.Shared.{Shared}
use cs537_group_projects.Procs.Keeps.{Sound, Exact}
use cs537_group_projects.Procs.Start.{userinit-Sound, New, fork-Fine, clone-Fine}
use cs537_group_projects.Procs.Alloc.{Fine, Alike-Fine}
use cs537_group_projects.Procs.Exit.{Goes, write-Alike, both, zombie-used, exit-Goes}
use cs537_group_projects.Procs.End.{reap-Goes, exec-Goes}

wait-Goes :
    (cur : ℕ) (s : Kernel)
    → is_unused (s.procs cur).state ≡ false
    → Sound s.procs s.uvms
    → Goes s (wait cur s)
unfolding wait zombie_child
wait-Goes cur s used sound = elim (Option-cases (zombie_child cur s.procs)) [
  | inr (z, e) ↦
      let (low, inside, hit, before) =
        subst (FirstIn test 0 nproc) e (first_from-FirstIn nproc 0 nproc test refl) in
      let dead = (both (is_process (s.procs z).parent cur) (is_zombie (s.procs z).state) hit).1 in
      rw (wait, e) (reap-Goes s z sound inside (zombie-used (s.procs z).state dead))
  | inl nobody ↦
      rw (wait, nobody) (stays (not (found (any_child cur s.procs)) || (s.procs cur).killed))
]
  where
    test : ℕ → Bool
    test i = is_process (s.procs i).parent cur && is_zombie (s.procs i).state

    asleep : Slot
    asleep = record (s.procs cur) { state = sleeping; chan = some cur }

    stays :
        (back : Bool)
        → Goes s (if back then ok s else ok (record s { procs = update s.procs cur asleep }))
    stays true = (s, refl, Alike-Fine s s sound refl refl (λ i h. (refl, refl)))
    stays false = (
      record s { procs = update s.procs cur asleep },
      refl,
      Alike-Fine s (record s { procs = update s.procs cur asleep }) sound refl refl
          (write-Alike s.procs s.procs cur asleep (λ i. (refl, refl)) (sym used, refl)),
    )

-- Process `i` runs.
pub record Runs (s : Kernel) (i : ℕ) : Type 0 where
  pub inside : i < nproc
  pub state : (s.procs i).state ≡ running

pub Runs-used : (s : Kernel) (i : ℕ) → Runs s i → is_unused (s.procs i).state ≡ false
Runs-used s i r = ap is_unused r.state

-- `initproc` does not exit: that is a panic. A directory that `copyuvm` or `exec` makes is used by no
-- process. A process passes between the states but UNUSED and ZOMBIE, with another channel, or killed.
pub data Step : Kernel → Kernel → Type 0 where
  forks :
      (kstack : Bool) (dir : Option ℕ) (cur : ℕ) (s : Kernel)
      → Runs s cur
      → New dir s.procs
      → Step s (fork kstack dir cur s)
  clones : (kstack : Bool) (cur : ℕ) (s : Kernel) → Runs s cur → Step s (clone kstack cur s)
  exits :
      (cur : ℕ) (s t : Kernel) → Runs s cur → cur ≢ initproc → exit initproc cur s ≡ ok t → Step s t
  waits : (cur : ℕ) (s t : Kernel) → Runs s cur → wait cur s ≡ ok t → Step s t
  execs :
      (dir cur : ℕ) (s t : Kernel)
      → Runs s cur
      → New (some dir) s.procs
      → exec_commit dir cur s ≡ ok t
      → Step s t
  moves :
      (i : ℕ) (st : State) (chan : Option ℕ) (killed : Bool) (s : Kernel)
      → is_unused (s.procs i).state ≡ false
      → is_unused st ≡ false
      → is_zombie (s.procs i).state ≡ false
      → is_zombie st ≡ false
      → Step s (record s {
        procs = update s.procs i (record (s.procs i) { state = st; chan = chan; killed = killed });
      })

-- From `userinit` on, whose process has the directory `dir`.
pub data Reachable (dir : ℕ) : Kernel → Type 0 where
  starts : Reachable dir (userinit dir pinit)
  steps : (s t : Kernel) → Reachable dir s → Step s t → Reachable dir t

ended : (s t : Kernel) (r : Ran) → r ≡ ok t → Goes s r → Fine s t
ended s t r e (u, eq, fine) = let same : u ≡ t = cc in subst (Fine s) same fine

Step-Fine : (s t : Kernel) → Step s t → Sound s.procs s.uvms → Fine s t
Step-Fine _ _ (forks kstack dir cur s r new) sound = fork-Fine kstack dir cur s sound new
Step-Fine _ _ (clones kstack cur s r) sound =
    clone-Fine kstack cur s r.inside (Runs-used s cur r) sound
Step-Fine _ _ (exits cur s t r ne e) sound =
    ended s t (exit initproc cur s) e (exit-Goes initproc cur s (Runs-used s cur r) ne sound)
Step-Fine _ _ (waits cur s t r e) sound =
    ended s t (wait cur s) e (wait-Goes cur s (Runs-used s cur r) sound)
Step-Fine _ _ (execs dir cur s t r (real, fresh) e) sound =
    ended s t (exec_commit dir cur s) e
      (exec-Goes s cur dir sound r.inside (Runs-used s cur r) real fresh)
Step-Fine _ _ (moves i st chan killed s used kept dead now) sound =
    Alike-Fine s
      (record s {
        procs = update s.procs i (record (s.procs i) { state = st; chan = chan; killed = killed });
      })
      sound refl refl
      (write-Alike s.procs s.procs i
        (record (s.procs i) { state = st; chan = chan; killed = killed }) (λ k. (refl, refl))
        (kept ∙ sym used, refl))

pub reachable-Sound : (dir : ℕ) (s : Kernel) → dir ≢ 0 → Reachable dir s → Sound s.procs s.uvms
reachable-Sound dir _ real starts = userinit-Sound dir real
reachable-Sound dir _ real (steps s t before step) =
    (Step-Fine s t step (reachable-Sound dir s real before)).0

-- In a reachable state, a step gives one page directory back at most, one that a process used before
-- and that no process uses afterwards; and a step after which a directory has no user left gives it
-- back.
pub freed_exactly : (dir : ℕ) (s t : Kernel) → dir ≢ 0 → Reachable dir s → Step s t → Exact s t
freed_exactly dir s t real before step = (Step-Fine s t step (reachable-Sound dir s real before)).1

-- In a reachable state, each count of the users of a page directory is the number of the processes
-- that use it, which is one at least; no directory is counted twice; and a directory of a process
-- that is not counted has that one user.
pub counted_users : (dir : ℕ) (s : Kernel) → dir ≢ 0 → Reachable dir s → Shared s.procs s.uvms
counted_users dir s real before = (reachable-Sound dir s real before).shared

-- In a reachable state, in a process that runs and is not the first, `wait`, `exec` with a directory
-- that is new, and `exit` do not panic: the counts that `freevm` meets are valid.
pub never_panics :
    (dir cur d : ℕ) (s : Kernel)
    → dir ≢ 0
    → Reachable dir s
    → Runs s cur
    → cur ≢ initproc
    → New (some d) s.procs
    → ((t : Kernel) × (wait cur s ≡ ok t))
      × ((t : Kernel) × (exec_commit d cur s ≡ ok t))
      × ((t : Kernel) × (exit initproc cur s ≡ ok t))
never_panics dir cur d s real before r ne (set, fresh) =
    let sound = reachable-Sound dir s real before in
    let used = Runs-used s cur r in
    (
      ran (wait-Goes cur s used sound),
      ran (exec-Goes s cur d sound r.inside used set fresh),
      ran (exit-Goes initproc cur s used ne sound),
    )
  where
    ran : {q : Ran} → Goes s q → (t : Kernel) × (q ≡ ok t)
    ran (t, e, fine) = (t, e)
