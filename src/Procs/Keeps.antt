-- ===== src/Procs/Keeps.antt =====
-- What `fork`, `clone`, `exit`, `wait` and `exec` of p5/xv6-public keep between two calls, and when
-- they give a page directory back.
use cs537_group_projects.Base.{
  ℕ, ◌<◌, ◌≤◌, ◌≡◌, ◌≢◌, ◌⊎◌, inl, inr, refl, sym, ap, subst, ◌∙◌, ◌∷◌, some, true, false, ◌==◌,
  arith, Bool-cases, update, update-there, update-apart, FirstIn, first_from-FirstIn,
}
use cs537_group_projects.Procs.Calls.{Slot, Uvm, Kernel, nproc, is_unused, unused_proc}
use cs537_group_projects.Procs.Users.{uses, one, users, users-same, users-update}
use cs537_group_projects.Procs.Shared.{Shared, same-Shared}
use cs537_group_projects.Procs.Fresh.{fresh-Shared}

-- The counts are right, and no process has a null directory.
pub record Sound (procs : ℕ → Slot) (uvms : ℕ → Uvm) : Type 0 where
  pub shared : Shared procs uvms
  pub real : (i : ℕ) → i < nproc → is_unused (procs i).state ≡ false → (procs i).pgdir ≢ 0

-- From `s` to `t`, one directory is given back at most, one that a process used and none uses any
-- more; and each such directory is.
pub record Exact (s t : Kernel) : Type 0 where
  pub given :
      (t.dropped ≡ s.dropped)
      ⊎ ((d : ℕ) × (t.dropped ≡ d ∷ s.dropped)
          × (1 ≤ users nproc d s.procs)
          × (users nproc d t.procs ≡ 0))
  pub last :
      (d : ℕ) → 1 ≤ users nproc d s.procs → users nproc d t.procs ≡ 0 → t.dropped ≡ d ∷ s.dropped

-- No directory loses a user.
pub kept-Exact :
    (s t : Kernel)
    → t.dropped ≡ s.dropped
    → ((d : ℕ) → users nproc d s.procs ≤ users nproc d t.procs)
    → Exact s t
kept-Exact s t e more = record {
  given = inl e;
  last = λ d was now. absurd (omega (arith, was, now, more d));
}

-- The same users and directories.
abbrev pub Alike : (ℕ → Slot) → (ℕ → Slot) → Type 0
Alike procs after =
    (i : ℕ)
    → i < nproc
    → (is_unused (after i).state ≡ is_unused (procs i).state) × ((after i).pgdir ≡ (procs i).pgdir)

pub users-Alike :
    (d : ℕ) (procs after : ℕ → Slot) → Alike procs after → users nproc d after ≡ users nproc d procs
users-Alike d procs after same =
    users-same nproc d procs after (λ i h. let (state, dir) = same i h in rw (state, dir) refl)

pub Alike-Sound :
    (procs after : ℕ → Slot) (uvms : ℕ → Uvm)
    → Alike procs after
    → Sound procs uvms
    → Sound after uvms
Alike-Sound procs after uvms same sound = record {
  shared = same-Shared procs after uvms sound.shared same;
  real = λ i h u e. let (state, dir) = same i h in sound.real i h (sym state ∙ u) (sym dir ∙ e);
}

pub Alike-Exact : (s t : Kernel) → t.dropped ≡ s.dropped → Alike s.procs t.procs → Exact s t
Alike-Exact s t e same = kept-Exact s t e (λ d. omega (arith, users-Alike d s.procs t.procs same))

-- Two writes to one entry are the second.
pub update-twice :
    (procs : ℕ → Slot) (j : ℕ) (a b : Slot) (i : ℕ)
    → update (update procs j a) j b i ≡ update procs j b i
unfolding update
update-twice procs j a b i = elim (Bool-cases (i == j)) [
  | inl here ↦ rw here refl
  | inr there ↦ rw there refl
]

pub same-Alike : (procs after : ℕ → Slot) → ((i : ℕ) → after i ≡ procs i) → Alike procs after
same-Alike procs after e = λ i h. (ap (λ s. is_unused (Slot.state s)) (e i), ap Slot.pgdir (e i))

pub unused_proc-unused :
    (procs : ℕ → Slot) (j : ℕ)
    → unused_proc procs ≡ some j
    → (j < nproc) × (is_unused (procs j).state ≡ true)
unfolding unused_proc
unused_proc-unused procs j e =
    let first = first_from-FirstIn nproc 0 nproc (λ i. is_unused (procs i).state) refl in
    let (low, high, hit, before) =
      subst (FirstIn (λ i. is_unused (procs i).state) 0 nproc) e first in
    (high, hit)

-- An entry that was free gains a user.
pub joined-more :
    (procs : ℕ → Slot) (j : ℕ) (v : Slot) (d : ℕ)
    → j < nproc
    → is_unused (procs j).state ≡ true
    → users nproc d procs ≤ users nproc d (update procs j v)
joined-more procs j v d inside free =
    let old : uses (procs j) d ≡ false = rw free refl in
    omega (arith, users-update nproc d procs j v inside, ap one old)

pub joined-real :
    (procs : ℕ → Slot) (uvms : ℕ → Uvm) (j : ℕ) (v : Slot)
    → Sound procs uvms
    → v.pgdir ≢ 0
    → (i : ℕ) → i < nproc
    → is_unused (update procs j v i).state ≡ false
    → (update procs j v i).pgdir ≢ 0
joined-real procs uvms j v sound real i h u = elim (Bool-cases (i == j)) [
  | inl here ↦
      let slot : update procs j v i ≡ v =
        ap (update procs j v) (ground (arith, here)) ∙ update-there procs j v in
      subst (λ s. Slot.pgdir s ≢ 0) (sym slot) real
  | inr there ↦
      let slot : update procs j v i ≡ procs i =
        update-apart procs j v i (λ e. ground (arith, e, there)) in
      subst (λ s. Slot.pgdir s ≢ 0) (sym slot)
        (sound.real i h (subst (λ s. is_unused (Slot.state s) ≡ false) slot u))
]

-- An entry that was free gets a process, with a directory of its own.
pub fresh-Sound :
    (procs : ℕ → Slot) (uvms : ℕ → Uvm) (j : ℕ) (v : Slot)
    → Sound procs uvms
    → j < nproc
    → is_unused (procs j).state ≡ true
    → is_unused v.state ≡ false
    → v.pgdir ≢ 0
    → users nproc v.pgdir procs ≡ 0
    → Sound (update procs j v) uvms
fresh-Sound procs uvms j v sound inside free taken real fresh = record {
  shared = fresh-Shared procs uvms j v sound.shared inside free taken fresh;
  real = joined-real procs uvms j v sound real;
}
