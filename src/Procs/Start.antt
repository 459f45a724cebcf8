-- ===== src/Procs/Start.antt =====
-- `userinit`, `fork` and `clone` of p5/xv6-public/proc.c, in both outcomes of `allocproc`.
use cs537_group_projects.Base.{
  ℕ, ◌+◌, ◌<◌, ◌≡◌, ◌≢◌, refl, sym, ap, subst, ◌∙◌, Option, none, some, Bool, true, false, update,
  update-there, update-apart,
}
use cs537_group_projects.Sched.Table.{unused, runnable}
use cs537_group_projects.Procs.Calls.{
  Slot, Kernel, nproc, is_unused, unused_proc, fork, fork_from, fork_copied, clone, clone_from,
  count_thread, pinit, userinit_from, userinit,
}
use cs537_group_projects.Procs.Users.{users}
use cs537_group_projects.Procs.Room.{users-zero}
use cs537_group_projects.Procs.Share.{clone-Shared}
use cs537_group_projects.Procs.Keeps.{
  Sound, Alike-Sound, kept-Exact, update-twice, same-Alike, unused_proc-unused, joined-real,
}
use cs537_group_projects.Procs.Alloc.{
  Fine, made, after, after-Alike, after-more, after_fresh, still-Alike, Alike-Fine, allocproc-cases,
  no_stack-Fine,
}

empty-Sound : Sound pinit.procs pinit.uvms
empty-Sound = record {
  shared = record {
    exact = λ d k r c. let count = c.count in cc;
    once = λ d k l r q a b. let count = a.count in cc;
    owned = λ i h used. let free : true ≡ false = used in cc;
  };
  real = λ i h used. let free : true ≡ false = used in cc;
}

pub userinit-Sound :
    (dir : ℕ) → dir ≢ 0 → Sound (userinit dir pinit).procs (userinit dir pinit).uvms
unfolding userinit userinit_from made
userinit-Sound dir real =
    allocproc-cases true pinit (λ a. Sound (userinit_from dir a).procs (userinit_from dir a).uvms)
      empty-Sound (λ j e. (no_stack-Fine pinit j e empty-Sound).0)
      (λ j e.
        let v : Slot = record (update pinit.procs j (made j pinit) j) {
          pgdir = dir;
          state = runnable;
        } in
        after_fresh pinit j v e refl empty-Sound real
          (users-zero nproc dir pinit.procs (λ i h. refl)))

-- A directory from `copyuvm`, if it gives one, is new.
abbrev pub New : Option ℕ → (ℕ → Slot) → Type 0
New none procs = Unit
New (some d) procs = (d ≢ 0) × (users nproc d procs ≡ 0)

pub fork-Fine :
    (kstack : Bool) (dir : Option ℕ) (cur : ℕ) (s : Kernel)
    → Sound s.procs s.uvms
    → New dir s.procs
    → Fine s (fork kstack dir cur s)
unfolding fork fork_from fork_copied made
fork-Fine kstack dir cur s sound new =
    allocproc-cases kstack s (λ a. Fine s (fork_from dir cur a))
      (Alike-Fine s s sound refl refl (same-Alike s.procs s.procs (λ i. refl)))
      (λ j e. no_stack-Fine s j e sound) (λ j e. ready dir new j e)
  where
    written : (j : ℕ) → update s.procs j (made j s) j ≡ made j s
    written j = update-there s.procs j (made j s)

    ready :
        (dir : Option ℕ)
        → New dir s.procs
        → (j : ℕ) → unused_proc s.procs ≡ some j
        → Fine s (
            fork_copied dir cur j
              (record s { procs = update s.procs j (made j s); next_pid = s.next_pid + 1 }))
    ready none new j e =
        let (inside, free) = unused_proc-unused s.procs j e in
        let v : Slot = record (update s.procs j (made j s) j) { state = unused } in
        let dir : v.pgdir ≡ (s.procs j).pgdir = ap Slot.pgdir (written j) in
        Alike-Fine s
          (record s { procs = update (update s.procs j (made j s)) j v; next_pid = s.next_pid + 1 })
          sound refl refl
          (λ i h.
            let at = update-twice s.procs j (made j s) v i in
            let (state, same) = still-Alike s.procs j v free refl dir i h in
            (ap (λ p. is_unused (Slot.state p)) at ∙ state, ap Slot.pgdir at ∙ same))
    ready (some d) (real, fresh) j e =
        let v : Slot = record (update s.procs j (made j s) j) {
          pgdir = d;
          parent = some cur;
          state = runnable;
        } in
        (
          after_fresh s j v e refl sound real fresh,
          kept-Exact s (record s { procs = after s j v e refl; next_pid = s.next_pid + 1 }) refl
              (after-more s j v e refl),
        )

pub clone-Fine :
    (kstack : Bool) (cur : ℕ) (s : Kernel)
    → cur < nproc
    → is_unused (s.procs cur).state ≡ false
    → Sound s.procs s.uvms
    → Fine s (clone kstack cur s)
unfolding clone clone_from made
clone-Fine kstack cur s inside used sound =
    allocproc-cases kstack s (λ a. Fine s (clone_from cur a))
      (Alike-Fine s s sound refl refl (same-Alike s.procs s.procs (λ i. refl)))
      (λ j e. no_stack-Fine s j e sound) ready
  where
    ready :
        (j : ℕ)
        → unused_proc s.procs ≡ some j
        → Fine s (
            clone_from cur
              (some j, record s { procs = update s.procs j (made j s); next_pid = s.next_pid + 1 }))
    ready j e =
        let (j_inside, free) = unused_proc-unused s.procs j e in
        let other : cur ≢ j =
          λ at. let taken = subst (λ i. is_unused (s.procs i).state ≡ false) at used in cc in
        let dir : (update s.procs j (made j s) cur).pgdir ≡ (s.procs cur).pgdir =
          ap Slot.pgdir (update-apart s.procs j (made j s) cur other) in
        let v : Slot = record (update s.procs j (made j s) j) {
          pgdir = (update s.procs j (made j s) cur).pgdir;
          parent = some cur;
          state = runnable;
        } in
        let counted : Sound (update s.procs j v) (count_thread s.uvms v.pgdir) = record {
          shared =
              clone-Shared s.procs s.uvms j cur v sound.shared j_inside free refl inside used dir;
          real =
              joined-real s.procs s.uvms j v sound (λ z. sound.real cur inside used (sym dir ∙ z));
        } in
        (
          Alike-Sound (update s.procs j v) (after s j v e refl) (count_thread s.uvms v.pgdir)
              (after-Alike s j v e refl) counted,
          kept-Exact s
              (record s {
                procs = after s j v e refl;
                uvms = count_thread s.uvms v.pgdir;
                next_pid = s.next_pid + 1;
              })
              refl (after-more s j v e refl),
        )
