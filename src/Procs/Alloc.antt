-- ===== src/Procs/Alloc.antt =====
-- `allocproc` of p5/xv6-public/proc.c in its outcomes, and the process that its callers make of it.
use cs537_group_projects.Base.{
  ◌==◌, ℕ, ◌+◌, ◌≤◌, ◌≡◌, ◌≢◌, inl, inr, refl, sym, ap, subst, ◌∙◌, Option, none, some, Bool, true,
  false, arith, Bool-cases, Option-cases, update, update-there, update-apart,
}
use cs537_group_projects.Sched.Table.{unused, embryo}
use cs537_group_projects.Procs.Calls.{Slot, Kernel, nproc, is_unused, unused_proc, allocproc}
use cs537_group_projects.Procs.Users.{users}
use cs537_group_projects.Procs.Keeps.{
  Sound, Exact, Alike, Alike-Sound, Alike-Exact, users-Alike, update-twice, same-Alike,
  unused_proc-unused, joined-more, fresh-Sound,
}

-- What `allocproc` gives: nothing, with the same users; or an entry that was free, `made` anew.
unfoldable pub made : ℕ → Kernel → Slot
made j s = record (s.procs j) { state = embryo; pid = s.next_pid; chan = none }

-- An entry that stays free.
pub still-Alike :
    (procs : ℕ → Slot) (j : ℕ) (v : Slot)
    → is_unused (procs j).state ≡ true
    → is_unused v.state ≡ true
    → v.pgdir ≡ (procs j).pgdir
    → Alike procs (update procs j v)
still-Alike procs j v free now dir = λ i h. elim (Bool-cases (i == j)) [
  | inl here ↦
      let same : i ≡ j = ground (arith, here) in
      let slot : update procs j v i ≡ v = ap (update procs j v) same ∙ update-there procs j v in
      (
        ap (λ s. is_unused (Slot.state s)) slot
            ∙ now
            ∙ sym free
            ∙ ap (λ k. is_unused (Slot.state (procs k))) (sym same),
        ap Slot.pgdir slot ∙ dir ∙ ap (λ k. (procs k).pgdir) (sym same),
      )
  | inr there ↦
      let slot : update procs j v i ≡ procs i =
        update-apart procs j v i (λ e. ground (arith, e, there)) in
      (ap (λ s. is_unused (Slot.state s)) slot, ap Slot.pgdir slot)
]

-- A new process in the entry `j` of the table with `made`, as if it were written at once.
module _ (s : Kernel) (j : ℕ) (v : Slot) (e : unused_proc s.procs ≡ some j)
    (taken : is_unused v.state ≡ false) where
  abbrev pub after : ℕ → Slot
  after = update (update s.procs j (made j s)) j v

  pub after-Alike : Alike (update s.procs j v) after
  after-Alike = same-Alike (update s.procs j v) after (update-twice s.procs j (made j s) v)

  pub after-more : (d : ℕ) → users nproc d s.procs ≤ users nproc d after
  after-more d =
      let (inside, free) = unused_proc-unused s.procs j e in
      omega (
        arith,
        users-Alike d (update s.procs j v) after after-Alike,
        joined-more s.procs j v d inside free,
      )

  pub after_fresh :
      Sound s.procs s.uvms → v.pgdir ≢ 0 → users nproc v.pgdir s.procs ≡ 0 → Sound after s.uvms
  after_fresh sound real fresh =
      let (inside, free) = unused_proc-unused s.procs j e in
      Alike-Sound (update s.procs j v) after s.uvms after-Alike
        (fresh-Sound s.procs s.uvms j v sound inside free taken real fresh)

-- What follows: the state is sound, and no directory is lost.
abbrev pub Fine : Kernel → Kernel → Type 0
Fine s t = Sound t.procs t.uvms × Exact s t

pub Alike-Fine :
    (s t : Kernel)
    → Sound s.procs s.uvms
    → t.uvms ≡ s.uvms
    → t.dropped ≡ s.dropped
    → Alike s.procs t.procs
    → Fine s t
Alike-Fine s t sound e f same = (
  subst (Sound t.procs) (sym e) (Alike-Sound s.procs t.procs s.uvms same sound),
  Alike-Exact s t f same,
)

-- The outcomes of `allocproc`.
pub allocproc-cases :
    (kstack : Bool) (s : Kernel) (P : Option ℕ × Kernel → Type 0)
    → P (none, s)
    → ((j : ℕ)
        → unused_proc s.procs ≡ some j
        → P (
          none,
          record s {
            procs = update s.procs j (record (made j s) { state = unused });
            next_pid = s.next_pid + 1;
          },
        ))
    → ((j : ℕ)
        → unused_proc s.procs ≡ some j
        → P (some j, record s { procs = update s.procs j (made j s); next_pid = s.next_pid + 1 }))
    → P (allocproc kstack s)
unfolding allocproc made
allocproc-cases kstack s P full no_stack ready = elim (Option-cases (unused_proc s.procs)) [
  | inl e ↦ rw (allocproc, e) full
  | inr (j, e) ↦ elim (Bool-cases kstack) [
    | inl stack ↦ rw (allocproc, e, stack) (ready j e)
    | inr never ↦ rw (allocproc, e, never) (no_stack j e)
  ]
]

pub no_stack-Fine :
    (s : Kernel) (j : ℕ)
    → unused_proc s.procs ≡ some j
    → Sound s.procs s.uvms
    → Fine s (record s {
      procs = update s.procs j (record (made j s) { state = unused });
      next_pid = s.next_pid + 1;
    })
unfolding made
no_stack-Fine s j e sound =
    let (inside, free) = unused_proc-unused s.procs j e in
    let given : Slot = record (made j s) { state = unused } in
    Alike-Fine s (record s { procs = update s.procs j given; next_pid = s.next_pid + 1 }) sound refl
      refl (still-Alike s.procs j given free refl refl)
