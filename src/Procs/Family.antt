-- ===== src/Procs/Family.antt =====
-- What `fork`, `clone`, `exit`, `wait` and `exec` of p5/xv6-public do to the parents of the processes.
use cs537_group_projects.Base.{
  ℕ, ◌+◌, ◌<◌, ◌≡◌, inl, inr, refl, sym, ap, subst, ◌∙◌, Option, none, some, Bool, true, false,
  ◌&&◌, ◌||◌, not, if◌then◌else◌, Bool-cases, Option-cases, update, update-there, FirstIn,
  first_from-FirstIn,
}
use cs537_group_projects.Sched.Table.{
  State, unused, embryo, sleeping, runnable, running, zombie, is_sleeping,
}
use cs537_group_projects.Procs.Calls.{
  is_unused, clear_slot, Slot, Kernel, Ran, ok, nproc, is_zombie, is_process, unused_proc, wake,
  fork, fork_from, fork_copied, clone, clone_from, zombie_child, any_child, found, reap, wait,
}
use cs537_group_projects.Procs.Keeps.{Sound, update-twice, unused_proc-unused}
use cs537_group_projects.Procs.Alloc.{made, allocproc-cases}
use cs537_group_projects.Procs.Exit.{both, zombie-used}
use cs537_group_projects.Procs.Release.{freevm-Released}
use cs537_group_projects.Procs.Tree.{
  is_alive, alive-used, Rooted, Kin, same-Rooted, write-Rooted, child-Rooted, reaped-Rooted,
}

-- An entry that `allocproc` gave back.
no_stack-Rooted :
    (s : Kernel) (j : ℕ)
    → unused_proc s.procs ≡ some j
    → Rooted s.procs
    → Rooted (update s.procs j (record (made j s) { state = unused }))
unfolding made
no_stack-Rooted s j e =
    let (inside, free) = unused_proc-unused s.procs j e in
    write-Rooted s.procs j (record (made j s) { state = unused })
      (sym free, (λ alive. let used = alive-used (s.procs j).state alive in cc), refl)

-- A child of `cur` in the entry that `allocproc` made.
new-Rooted :
    (s : Kernel) (j cur : ℕ) (v : Slot)
    → unused_proc s.procs ≡ some j
    → v.parent ≡ some cur
    → cur < nproc
    → is_alive (s.procs cur).state ≡ true
    → Rooted s.procs
    → Rooted (update (update s.procs j (made j s)) j v)
new-Rooted s j cur v e parent inside alive rooted =
    let (j_inside, free) = unused_proc-unused s.procs j e in
    same-Rooted (update s.procs j v) (update (update s.procs j (made j s)) j v)
      (update-twice s.procs j (made j s) v)
      (child-Rooted s.procs j v cur free parent inside alive rooted)

pub fork-Rooted :
    (kstack : Bool) (dir : Option ℕ) (cur : ℕ) (s : Kernel)
    → cur < nproc
    → is_alive (s.procs cur).state ≡ true
    → Rooted s.procs
    → Rooted (fork kstack dir cur s).procs
unfolding fork fork_from fork_copied made
fork-Rooted kstack dir cur s inside alive rooted =
    allocproc-cases kstack s (λ a. Rooted (fork_from dir cur a).procs) rooted
      (λ j e. no_stack-Rooted s j e rooted) (ready dir)
  where
    ready :
        (dir : Option ℕ) (j : ℕ)
        → unused_proc s.procs ≡ some j
        → Rooted
            (fork_copied dir cur j
              (record s { procs = update s.procs j (made j s); next_pid = s.next_pid + 1 })).procs
    ready none j e =
        let (j_inside, free) = unused_proc-unused s.procs j e in
        let there = update-there s.procs j (made j s) in
        let v : Slot = record (update s.procs j (made j s) j) { state = unused } in
        same-Rooted (update s.procs j v) (update (update s.procs j (made j s)) j v)
          (update-twice s.procs j (made j s) v)
          (write-Rooted s.procs j v
            (
              sym free,
              (λ living. let used = alive-used (s.procs j).state living in cc),
              ap Slot.parent there,
            )
            rooted)
    ready (some d) j e =
        new-Rooted s j cur
          (record (update s.procs j (made j s) j) {
            pgdir = d;
            parent = some cur;
            state = runnable;
          })
          e refl inside alive rooted

pub clone-Rooted :
    (kstack : Bool) (cur : ℕ) (s : Kernel)
    → cur < nproc
    → is_alive (s.procs cur).state ≡ true
    → Rooted s.procs
    → Rooted (clone kstack cur s).procs
unfolding clone clone_from made
clone-Rooted kstack cur s inside alive rooted =
    allocproc-cases kstack s (λ a. Rooted (clone_from cur a).procs) rooted
      (λ j e. no_stack-Rooted s j e rooted)
      (λ j e.
        new-Rooted s j cur
          (record (update s.procs j (made j s) j) {
            pgdir = (update s.procs j (made j s) cur).pgdir;
            parent = some cur;
            state = runnable;
          })
          e refl inside alive rooted)

sleeper-alive : (st : State) → is_sleeping st ≡ true → is_alive st ≡ true
sleeper-alive sleeping h = refl
sleeper-alive unused h = let no_way : false ≡ true = h in cc
sleeper-alive embryo h = refl
sleeper-alive runnable h = refl
sleeper-alive running h = refl
sleeper-alive zombie h = let no_way : false ≡ true = h in cc

pub wake-Kin : (p : Option ℕ) (s : Slot) → Kin s (wake p s)
unfolding wake
wake-Kin none s = (refl, (λ h. h), refl)
wake-Kin (some p) s = elim (Bool-cases (is_sleeping s.state && is_process s.chan p)) [
  | inl woken ↦
      let asleep = (both (is_sleeping s.state) (is_process s.chan p) woken).0 in
      rw (wake, woken) (sym (alive-used s.state (sleeper-alive s.state asleep)), (λ h. refl), refl)
  | inr other ↦ rw (wake, other) (refl, (λ h. h), refl)
]

-- The table of processes that `wait` leaves.
reap-procs :
    (s t : Kernel) (z : ℕ)
    → Sound s.procs s.uvms
    → z < nproc
    → is_unused (s.procs z).state ≡ false
    → reap z s ≡ ok t
    → t.procs
      ≡ update s.procs z
          (record (s.procs z) { pid = 0; parent = none; killed = false; state = unused })
unfolding reap clear_slot
reap-procs s t z sound inside used e =
    let gone : Slot = record (s.procs z) {
      pid = 0;
      parent = none;
      killed = false;
      state = unused;
    } in
    let (freed, ran, released) =
      freevm-Released s.procs z gone inside used refl s sound.shared (sound.real z inside used) in
    let done : reap z s ≡ ok (clear_slot z freed) = rw (reap, ran) refl in
    let same : clear_slot z freed ≡ t = cc in
    sym (ap Kernel.procs same)
    ∙ ap (λ p. update p z (record (p z) { pid = 0; parent = none; killed = false; state = unused }))
        released.procs

pub wait-Rooted :
    (cur : ℕ) (s t : Kernel)
    → is_alive (s.procs cur).state ≡ true
    → wait cur s ≡ ok t
    → Sound s.procs s.uvms
    → Rooted s.procs
    → Rooted t.procs
unfolding wait zombie_child
wait-Rooted cur s t alive e sound rooted = elim (Option-cases (zombie_child cur s.procs)) [
  | inr (z, at) ↦
      let (low, inside, hit, before) =
        subst (FirstIn test 0 nproc) at (first_from-FirstIn nproc 0 nproc test refl) in
      let dead = (both (is_process (s.procs z).parent cur) (is_zombie (s.procs z).state) hit).1 in
      let chosen : wait cur s ≡ reap z s = rw (wait, at) refl in
      let table =
        reap-procs s t z sound inside (zombie-used (s.procs z).state dead) (sym chosen ∙ e) in
      subst Rooted (sym table) (
        reaped-Rooted s.procs z
          (record (s.procs z) { pid = 0; parent = none; killed = false; state = unused }) dead refl
          rooted)
  | inl nobody ↦
      let chosen : wait cur s
          ≡ stays (not (found (any_child cur s.procs)) || (s.procs cur).killed) =
        rw (wait, nobody) refl in
      stays-Rooted (not (found (any_child cur s.procs)) || (s.procs cur).killed) (sym chosen ∙ e)
]
  where
    test : ℕ → Bool
    test i = is_process (s.procs i).parent cur && is_zombie (s.procs i).state

    asleep : Slot
    asleep = record (s.procs cur) { state = sleeping; chan = some cur }

    stays : Bool → Ran
    stays back = if back then ok s else ok (record s { procs = update s.procs cur asleep })

    stays-Rooted : (back : Bool) → stays back ≡ ok t → Rooted t.procs
    stays-Rooted true f = let same : s ≡ t = cc in subst (λ k. Rooted (Kernel.procs k)) same rooted
    stays-Rooted false f =
        let same : record s { procs = update s.procs cur asleep } ≡ t = cc in
        subst (λ k. Rooted (Kernel.procs k)) same
          (write-Rooted s.procs cur asleep
            (sym (alive-used (s.procs cur).state alive), (λ h. refl), refl) rooted)
