-- ===== src/Procs/End.antt =====
-- `wait` and `exec` of p5/xv6-public: a process less, or a directory less.
use cs537_group_projects.Base.{
  ℕ, ◌+◌, ◌<◌, ◌≤◌, ◌≡◌, ◌≢◌, inl, inr, refl, sym, ap, subst, ◌∙◌, none, true, false, arith, ◌==◌,
  ◌∷◌, Bool-cases, update, update-there,
}
use cs537_group_projects.Sched.Table.{unused}
use cs537_group_projects.Procs.Calls.{
  Slot, Uvm, Kernel, nproc, is_unused, clear_slot, reap, exec_commit,
}
use cs537_group_projects.Procs.Users.{users, uses, one, users-update}
use cs537_group_projects.Procs.Shared.{Shared}
use cs537_group_projects.Procs.Leave.{users-left, users-left_apart}
use cs537_group_projects.Procs.Release.{Released, freevm-Released}
use cs537_group_projects.Procs.Keeps.{
  Sound, Exact, Alike, Alike-Sound, users-Alike, update-twice, same-Alike, joined-real, joined-more,
  fresh-Sound,
}
use cs537_group_projects.Procs.Exit.{Goes}

-- `z` leaves its directory in `freevm`; its entry is `gone`.
module _ (s : Kernel) (z : ℕ) (gone : Slot) (sound : Sound s.procs s.uvms) (inside : z < nproc)
    (used : is_unused (s.procs z).state ≡ false) (free : is_unused gone.state ≡ true)
    (same_dir : gone.pgdir ≡ (s.procs z).pgdir) where
  abbrev old : ℕ
  old = (s.procs z).pgdir

  abbrev left : ℕ → Slot
  left = update s.procs z gone

  left-Exact :
      (before t freed : Kernel)
      → Released before freed left old
      → before.dropped ≡ s.dropped
      → t.dropped ≡ freed.dropped
      → ((d : ℕ) → users nproc d left ≤ users nproc d t.procs)
      → users nproc old t.procs ≡ users nproc old left
      → Exact s t
  left-Exact before t freed released same dropped more kept =
      let one_more = users-left s.procs z gone inside used free in
      record {
        given = elim released.given [
          | inl (e, some_left) ↦ inl (dropped ∙ e ∙ same)
          | inr (e, empty) ↦
              inr
                (old, dropped ∙ e ∙ ap (λ ds. old ∷ ds) same, omega (arith, one_more), kept ∙ empty)
        ];
        last = λ d was now. elim (Bool-cases (d == old)) [
          | inl this ↦
              let at : d ≡ old = ground (arith, this) in
              elim released.given [
                | inl (e, some_left) ↦
                    absurd (
                      omega (arith, some_left, kept, subst (λ x. users nproc x t.procs ≡ 0) at now))
                | inr (e, empty) ↦
                    dropped ∙ e ∙ ap (λ ds. old ∷ ds) same ∙ ap (λ x. x ∷ s.dropped) (sym at)
              ]
          | inr other ↦
              let as_before : users nproc d left ≡ users nproc d s.procs =
                users-left_apart s.procs z gone inside used free d
                  (λ e. ground (arith, e, other)) in
              absurd (omega (arith, was, now, as_before, more d))
        ];
      }

  left-Sound : (uvms : ℕ → Uvm) → Shared left uvms → Sound left uvms
  left-Sound uvms shared = record {
    shared = shared;
    real =
        joined-real s.procs s.uvms z gone sound (λ e. sound.real z inside used (sym same_dir ∙ e));
  }

pub reap-Goes :
    (s : Kernel) (z : ℕ)
    → Sound s.procs s.uvms
    → z < nproc
    → is_unused (s.procs z).state ≡ false
    → Goes s (reap z s)
unfolding reap clear_slot
reap-Goes s z sound inside used =
    let (freed, ran, released) =
      freevm-Released s.procs z reaped inside used refl s sound.shared (sound.real z inside used) in
    let table : (clear_slot z freed).procs ≡ update s.procs z reaped =
      ap (λ p. update p z (record (p z) { pid = 0; parent = none; killed = false; state = unused }))
        released.procs in
    (
      clear_slot z freed,
      rw (reap, ran) refl,
      (
        subst (λ p. Sound p freed.uvms) (sym table)
            (left-Sound s z reaped sound inside used refl refl freed.uvms released.shared),
        left-Exact s z reaped sound inside used refl refl s (clear_slot z freed) freed released refl
            refl (λ d. omega (arith, ap (λ p. users nproc d p) table))
            (ap (λ p. users nproc (s.procs z).pgdir p) table),
      ),
    )
  where
    reaped : Slot
    reaped = record (s.procs z) { pid = 0; parent = none; killed = false; state = unused }

-- With the directory `dir` in place of the old one.
pub exec-Goes :
    (s : Kernel) (cur dir : ℕ)
    → Sound s.procs s.uvms
    → cur < nproc
    → is_unused (s.procs cur).state ≡ false
    → dir ≢ 0
    → users nproc dir s.procs ≡ 0
    → Goes s (exec_commit dir cur s)
unfolding exec_commit
exec-Goes s cur dir sound inside used real fresh =
    let (freed, ran, released) =
      freevm-Released s.procs cur gone inside used refl before sound.shared
        (sound.real cur inside used) in
    let apart : dir ≢ (s.procs cur).pgdir =
      λ e. omega (arith, fresh, ap (λ d. users nproc d s.procs) e, one_more) in
    let fresh_left : users nproc dir left ≡ 0 =
      users-left_apart s.procs cur gone inside used refl dir apart ∙ fresh in
    (
      freed,
      ran,
      (
        subst (λ p. Sound p freed.uvms) (sym released.procs)
            (Alike-Sound (update left cur v) before.procs freed.uvms twice (
              fresh-Sound left freed.uvms cur v
                (left-Sound s cur gone sound inside used refl refl freed.uvms released.shared)
                inside empty used real fresh_left)),
        left-Exact s cur gone sound inside used refl refl before freed freed released refl refl
            (λ d. omega (
              arith,
              joined-more left cur v d inside empty,
              at_end d,
              ap (λ p. users nproc d p) released.procs,
            ))
            (let old_kept : users nproc (s.procs cur).pgdir (update left cur v)
                  ≡ users nproc (s.procs cur).pgdir left =
                omega (
                  arith,
                  users-update nproc (s.procs cur).pgdir left cur v inside,
                  ap one not_before,
                  ap one (not_after apart),
                ) in
              ap (λ p. users nproc (s.procs cur).pgdir p) released.procs
              ∙ at_end (s.procs cur).pgdir
              ∙ old_kept),
      ),
    )
  where
    v : Slot
    v = record (s.procs cur) { pgdir = dir }

    gone : Slot
    gone = record (s.procs cur) { state = unused }

    left : ℕ → Slot
    left = update s.procs cur gone

    before : Kernel
    before = record s { procs = update s.procs cur v }

    one_more : users nproc (s.procs cur).pgdir left + 1 ≡ users nproc (s.procs cur).pgdir s.procs
    one_more = users-left s.procs cur gone inside used refl

    empty : is_unused (left cur).state ≡ true
    empty = ap (λ p. is_unused (Slot.state p)) (update-there s.procs cur gone)

    twice : Alike (update left cur v) before.procs
    twice =
        same-Alike (update left cur v) before.procs (λ i. sym (update-twice s.procs cur gone v i))

    at_end : (d : ℕ) → users nproc d before.procs ≡ users nproc d (update left cur v)
    at_end d = users-Alike d (update left cur v) before.procs twice

    not_before : uses (left cur) (s.procs cur).pgdir ≡ false
    not_before = rw empty refl

    not_after : dir ≢ (s.procs cur).pgdir → uses v (s.procs cur).pgdir ≡ false
    not_after apart =
        let other : (dir == (s.procs cur).pgdir) ≡ false = ground (arith, apart) in
        rw (used, other) refl
