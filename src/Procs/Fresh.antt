-- ===== src/Procs/Fresh.antt =====
-- A process more, with a directory of its own (`fork`, `exec`), of p5/xv6-public/proc.c.
use cs537_group_projects.Base.{
  ℕ, ◌+◌, ◌<◌, ◌≡◌, ◌≢◌, inl, inr, refl, sym, ap, subst, ◌∙◌, true, false, ◌==◌, arith, Bool-cases,
  update, update-there, update-apart,
}
use cs537_group_projects.Procs.Calls.{Slot, Uvm, nproc, is_unused}
use cs537_group_projects.Procs.Users.{uses, one, users, users-update, users-at_least}
use cs537_group_projects.Procs.Shared.{Counts, Shared, used-uses}

-- An entry that is free, filled by a process.
module _ (procs : ℕ → Slot) (j : ℕ) (v : Slot) (inside : j < nproc)
    (free : is_unused (procs j).state ≡ true) (taken : is_unused v.state ≡ false) where
  abbrev pub joined : ℕ → Slot
  joined = update procs j v

  joined-old : (d : ℕ) → uses (procs j) d ≡ false
  joined-old d = rw free refl

  joined-new : uses v v.pgdir ≡ true
  joined-new = let same : (v.pgdir == v.pgdir) ≡ true = ground arith in rw (taken, same) refl

  pub users-joined : users nproc v.pgdir joined ≡ users nproc v.pgdir procs + 1
  users-joined = omega (
    arith,
    users-update nproc v.pgdir procs j v inside,
    ap one (joined-old v.pgdir),
    ap one joined-new,
  )

  pub users-joined_apart : (d : ℕ) → d ≢ v.pgdir → users nproc d joined ≡ users nproc d procs
  users-joined_apart d ne =
      let other : (v.pgdir == d) ≡ false = ground (arith, ne) in
      let unused_by : uses v d ≡ false = rw (taken, other) refl in
      omega (arith, users-update nproc d procs j v inside, ap one (joined-old d), ap one unused_by)

  -- Another process's user, in the table after.
  joined-keeps : (i : ℕ) → is_unused (joined i).state ≡ false → i ≢ j → joined i ≡ procs i
  joined-keeps i u ne = update-apart procs j v i ne

-- With a directory that no process uses.
pub fresh-Shared :
    (procs : ℕ → Slot) (uvms : ℕ → Uvm) (j : ℕ) (v : Slot)
    → Shared procs uvms
    → j < nproc
    → is_unused (procs j).state ≡ true
    → is_unused v.state ≡ false
    → users nproc v.pgdir procs ≡ 0
    → Shared (update procs j v) uvms
fresh-Shared procs uvms j v shared inside free taken fresh =
    let not_counted : (d k r : ℕ) → Counts uvms d k r → d ≢ v.pgdir = λ d k r c e.
      let (pos, exact) = shared.exact d k r c in
      omega (arith, pos, exact, ap (λ x. users nproc x procs) e, fresh) in
    record {
      exact = λ d k r c.
          let (pos, exact) = shared.exact d k r c in
          (pos, users-joined_apart procs j v inside free taken d (not_counted d k r c) ∙ exact);
      once = shared.once;
      owned = λ i h u. elim (Bool-cases (i == j)) [
        | inl new ↦
            let same : i ≡ j = ground (arith, new) in
            let slot : update procs j v i ≡ v =
              ap (update procs j v) same ∙ update-there procs j v in
            inl (
              ap (λ s. users nproc (Slot.pgdir s) (update procs j v)) slot
              ∙ omega (arith, users-joined procs j v inside free taken, fresh))
        | inr old ↦
            let slot : update procs j v i ≡ procs i =
              update-apart procs j v i (λ e. ground (arith, e, old)) in
            let was : is_unused (procs i).state ≡ false =
              sym (ap (λ s. is_unused (Slot.state s)) slot) ∙ u in
            let apart : (procs i).pgdir ≢ v.pgdir = λ e. omega (
              arith,
              users-at_least nproc v.pgdir procs i h (used-uses (procs i) v.pgdir was e),
              fresh,
            ) in
            elim (shared.owned i h was) [
              | inl single ↦ inl (
                  ap (λ s. users nproc (Slot.pgdir s) (update procs j v)) slot
                  ∙ users-joined_apart procs j v inside free taken (procs i).pgdir apart
                  ∙ single)
              | inr (k, r, c) ↦ inr (k, r, subst (λ s. Counts uvms (Slot.pgdir s) k r) (sym slot) c)
            ]
      ];
    }
