-- ===== src/Procs/Orphans.antt =====
-- Every process of p5/xv6-public/proc.c but the first keeps a parent that is alive and can `wait` for it:
-- `exit` passes the children to the first process.
use cs537_group_projects.Base.{
  ℕ, ◌<◌, ◌≡◌, ◌≢◌, ◌⊎◌, inl, inr, refl, sym, ap, subst, ◌∙◌, Option, none, some, true, false,
  arith, ◌==◌, first_from, if◌then◌else◌, Bool-cases, update, update-there, update-apart,
}
use cs537_group_projects.Sched.Table.{unused, zombie}
use cs537_group_projects.Procs.Calls.{
  exec_commit, Slot, Kernel, ok, nproc, is_unused, is_process, initproc, pinit, userinit,
  unused_proc, wake, adopt, zombie_child, found, exit,
}
use cs537_group_projects.Procs.Keeps.{Sound}
use cs537_group_projects.Procs.Release.{freevm-Released}
use cs537_group_projects.Procs.Tree.{
  is_alive, alive-used, used-alive, HasParent, Rooted, write-Rooted,
}
use cs537_group_projects.Procs.Family.{fork-Rooted, clone-Rooted, wait-Rooted, wake-Kin}
use cs537_group_projects.Procs.Run.{
  Runs, Runs-used, Step, forks, clones, exits, waits, execs, moves, Reachable, starts, steps,
  reachable-Sound,
}

adopt_cases :
    (cur init : ℕ) (s : Slot)
    → ((adopt cur init s).state ≡ s.state)
      × (((adopt cur init s).parent ≡ some init)
          ⊎ (((adopt cur init s).parent ≡ s.parent) × (is_process s.parent cur ≡ false)))
unfolding adopt
adopt_cases cur init s = elim (Bool-cases (is_process s.parent cur)) [
  | inl child ↦ rw (adopt, child) (refl, inl refl)
  | inr other ↦ rw (adopt, other) (refl, inr (refl, refl))
]

exit-Rooted :
    (cur : ℕ) (s t : Kernel)
    → cur ≢ initproc
    → is_alive (s.procs cur).state ≡ true
    → exit initproc cur s ≡ ok t
    → Rooted s.procs
    → Rooted t.procs
unfolding exit
exit-Rooted cur s t ne living e rooted =
    let other : (cur == initproc) ≡ false = ground (arith, ne) in
    let done : exit initproc cur s ≡ ok (record s { procs = after }) = rw (exit, other) refl in
    let same : record s { procs = after } ≡ t = cc in
    subst (λ k. Rooted (Kernel.procs k)) same
      (record { root = root_after; parents = parents_after })
  where
    waking : Option ℕ
    waking = if found (zombie_child cur s.procs) then some initproc else none

    woken : ℕ → Slot
    woken i = wake (s.procs cur).parent (s.procs i)

    passed : ℕ → Slot
    passed i = wake waking (adopt cur initproc (woken i))

    dead : Slot
    dead = record (passed cur) { state = zombie }

    after : ℕ → Slot
    after = update passed cur dead

    passed-alive : (i : ℕ) → is_alive (s.procs i).state ≡ true → is_alive (passed i).state ≡ true
    passed-alive i h =
        let first = (wake-Kin (s.procs cur).parent (s.procs i)).1 h in
        let kept = (adopt_cases cur initproc (woken i)).0 in
        (wake-Kin waking (adopt cur initproc (woken i))).1 (ap is_alive kept ∙ first)

    after-alive :
        (i : ℕ) → i ≢ cur → is_alive (s.procs i).state ≡ true → is_alive (after i).state ≡ true
    after-alive i apart h =
        ap (λ s. is_alive (Slot.state s)) (update-apart passed cur dead i apart) ∙ passed-alive i h

    root_after : is_alive (after initproc).state ≡ true
    root_after = after-alive initproc (λ e. ne (sym e)) rooted.root

    passed-used : (i : ℕ) → is_unused (passed i).state ≡ is_unused (s.procs i).state
    passed-used i =
        (wake-Kin waking (adopt cur initproc (woken i))).0
        ∙ ap is_unused (adopt_cases cur initproc (woken i)).0
        ∙ (wake-Kin (s.procs cur).parent (s.procs i)).0

    -- The parent of a process that had the parent `p`, which was alive.
    passed-parent :
        (i p : ℕ)
        → (s.procs i).parent ≡ some p
        → p < nproc
        → is_alive (s.procs p).state ≡ true
        → (q : ℕ) × ((passed i).parent ≡ some q) × (q < nproc) × (is_alive (after q).state ≡ true)
    passed-parent i p parent inside alive =
        let last = (wake-Kin waking (adopt cur initproc (woken i))).2 in
        let first = (wake-Kin (s.procs cur).parent (s.procs i)).2 in
        elim (adopt_cases cur initproc (woken i)).1 [
          | inl adopted ↦ (initproc, last ∙ adopted, omega arith, root_after)
          | inr (kept, apart) ↦
              let to : is_process (woken i).parent cur ≡ (cur == p) =
                ap (λ o. is_process o cur) (first ∙ parent) in
              let p_apart : p ≢ cur = λ e. ground (arith, e, sym to ∙ apart) in
              (p, last ∙ kept ∙ first ∙ parent, inside, after-alive p p_apart alive)
        ]

    here : (i : ℕ) → (i == cur) ≡ true → (i ≡ cur) × (after i ≡ dead)
    here i at =
        let same : i ≡ cur = ground (arith, at) in
        (same, ap after same ∙ update-there passed cur dead)

    there : (i : ℕ) → (i == cur) ≡ false → after i ≡ passed i
    there i off = update-apart passed cur dead i (λ e. ground (arith, e, off))

    before : (i : ℕ) → is_unused (after i).state ≡ false → is_unused (s.procs i).state ≡ false
    before i u = elim (Bool-cases (i == cur)) [
      | inl at ↦
          ap (λ k. is_unused (Slot.state (s.procs k))) (here i at).0
          ∙ alive-used (s.procs cur).state living
      | inr off ↦ sym (passed-used i) ∙ sym (ap (λ s. is_unused (Slot.state s)) (there i off)) ∙ u
    ]

    after-parent : (i : ℕ) → (after i).parent ≡ (passed i).parent
    after-parent i = elim (Bool-cases (i == cur)) [
      | inl at ↦ ap Slot.parent (here i at).1 ∙ ap (λ k. (passed k).parent) (sym (here i at).0)
      | inr off ↦ ap Slot.parent (there i off)
    ]

    parents_after :
        (i : ℕ) → i < nproc → is_unused (after i).state ≡ false → i ≢ initproc → HasParent after i
    parents_after i h u apart =
        let (p, parent, inside, alive) = rooted.parents i h (before i u) apart in
        let (q, new, q_inside, q_alive) = passed-parent i p parent inside alive in
        (q, after-parent i ∙ new, q_inside, q_alive)

-- The table of processes that `exec` leaves.
exec-procs :
    (s t : Kernel) (cur dir : ℕ)
    → Sound s.procs s.uvms
    → cur < nproc
    → is_unused (s.procs cur).state ≡ false
    → exec_commit dir cur s ≡ ok t
    → t.procs ≡ update s.procs cur (record (s.procs cur) { pgdir = dir })
unfolding exec_commit
exec-procs s t cur dir sound inside used e =
    let gone : Slot = record (s.procs cur) { state = unused } in
    let before : Kernel = record s {
      procs = update s.procs cur (record (s.procs cur) { pgdir = dir });
    } in
    let (freed, ran, released) =
      freevm-Released s.procs cur gone inside used refl before sound.shared
        (sound.real cur inside used) in
    let same : freed ≡ t = cc in sym (ap Kernel.procs same) ∙ released.procs

runner-alive : (s : Kernel) (cur : ℕ) → Runs s cur → is_alive (s.procs cur).state ≡ true
runner-alive s cur r = ap is_alive r.state

Step-Rooted : (s t : Kernel) → Step s t → Sound s.procs s.uvms → Rooted s.procs → Rooted t.procs
Step-Rooted _ _ (forks kstack dir cur s r new) sound rooted =
    fork-Rooted kstack dir cur s r.inside (runner-alive s cur r) rooted
Step-Rooted _ _ (clones kstack cur s r) sound rooted =
    clone-Rooted kstack cur s r.inside (runner-alive s cur r) rooted
Step-Rooted _ _ (exits cur s t r ne e) sound rooted =
    exit-Rooted cur s t ne (runner-alive s cur r) e rooted
Step-Rooted _ _ (waits cur s t r e) sound rooted =
    wait-Rooted cur s t (runner-alive s cur r) e sound rooted
Step-Rooted _ _ (execs dir cur s t r new e) sound rooted =
    subst Rooted (sym (exec-procs s t cur dir sound r.inside (Runs-used s cur r) e)) (
      write-Rooted s.procs cur (record (s.procs cur) { pgdir = dir }) (refl, (λ h. h), refl) rooted)
Step-Rooted _ _ (moves i st chan killed s used kept dead now) sound rooted =
    write-Rooted s.procs i (record (s.procs i) { state = st; chan = chan; killed = killed })
      (kept ∙ sym used, (λ h. used-alive st kept now), refl) rooted

userinit-Rooted : (dir : ℕ) → Rooted (userinit dir pinit).procs
unfolding userinit unused_proc first_from update
userinit-Rooted dir = record { root = refl; parents = λ i h u ne. absurd (ground (arith, u, ne)) }

reachable-Rooted : (dir : ℕ) (s : Kernel) → dir ≢ 0 → Reachable dir s → Rooted s.procs
reachable-Rooted dir _ real starts = userinit-Rooted dir
reachable-Rooted dir _ real (steps s t before step) =
    Step-Rooted s t step (reachable-Sound dir s real before) (reachable-Rooted dir s real before)

-- In a reachable state the first process is alive, that is, neither UNUSED nor ZOMBIE, and each other
-- process, the zombies among them, has a parent that is alive.
pub never_orphaned : (dir : ℕ) (s : Kernel) → dir ≢ 0 → Reachable dir s → Rooted s.procs
never_orphaned dir s real before = reachable-Rooted dir s real before
