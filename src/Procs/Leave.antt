-- ===== src/Procs/Leave.antt =====
-- A process less among the users of its page directory, for p5/xv6-public.
use cs537_group_projects.Base.{
  ℕ, ◌+◌, ◌<◌, ◌≤◌, ◌≡◌, ◌≢◌, ◌⊎◌, inl, inr, refl, sym, ap, subst, ◌∙◌, true, false, ◌==◌, arith,
  Bool-cases, update, update-there, update-apart,
}
use cs537_group_projects.Procs.Calls.{Slot, Uvm, nproc, is_unused}
use cs537_group_projects.Procs.Users.{uses, one, users, users-update, users-two}
use cs537_group_projects.Procs.Shared.{Counts, Shared, used-uses}

-- Process `z` is a user no more.
module _ (procs : ℕ → Slot) (z : ℕ) (gone : Slot) (inside : z < nproc)
    (used : is_unused (procs z).state ≡ false) (unused_now : is_unused gone.state ≡ true) where
  abbrev left : ℕ → Slot
  left = update procs z gone

  pub users-left : users nproc (procs z).pgdir left + 1 ≡ users nproc (procs z).pgdir procs
  users-left =
      let now : uses gone (procs z).pgdir ≡ false = rw unused_now refl in
      omega (
        arith,
        users-update nproc (procs z).pgdir procs z gone inside,
        ap one (used-uses (procs z) (procs z).pgdir used refl),
        ap one now,
      )

  pub users-left_apart : (d : ℕ) → d ≢ (procs z).pgdir → users nproc d left ≡ users nproc d procs
  users-left_apart d ne =
      let other : ((procs z).pgdir == d) ≡ false = ground (arith, ne) in
      let was : uses (procs z) d ≡ false = rw (used, other) refl in
      let now : uses gone d ≡ false = rw unused_now refl in
      omega (arith, users-update nproc d procs z gone inside, ap one was, ap one now)

  left-slot : (i : ℕ) → is_unused (left i).state ≡ false → (i ≢ z) × (left i ≡ procs i)
  left-slot i u = elim (Bool-cases (i == z)) [
    | inl same ↦
        let slot : left i ≡ gone = ap left (ground (arith, same)) ∙ update-there procs z gone in
        let state = ap (λ s. is_unused (Slot.state s)) slot in cc
    | inr other ↦
        let ne : i ≢ z = λ e. ground (arith, e, other) in (ne, update-apart procs z gone i ne)
  ]

  -- The counts of the other directories are as before.
  pub left-Shared :
      (uvms after : ℕ → Uvm)
      → Shared procs uvms
      → ((d k r : ℕ) → d ≢ (procs z).pgdir → Counts after d k r → Counts uvms d k r)
      → ((d k r : ℕ) → d ≢ (procs z).pgdir → Counts uvms d k r → Counts after d k r)
      → ((k r : ℕ)
          → Counts after (procs z).pgdir k r
          → (1 ≤ r) × (users nproc (procs z).pgdir left ≡ r))
      → ((k l r q : ℕ)
          → Counts after (procs z).pgdir k r
          → Counts after (procs z).pgdir l q
          → k ≡ l)
      → ((i : ℕ)
          → i < nproc
          → i ≢ z
          → is_unused (procs i).state ≡ false
          → (procs i).pgdir ≡ (procs z).pgdir
          → (k : ℕ) × (r : ℕ) × Counts after (procs z).pgdir k r)
      → Shared left after
  left-Shared uvms after shared back on here once still = record {
    exact = λ d k r c. elim (Bool-cases (d == (procs z).pgdir)) [
      | inl same ↦
          let this : d ≡ (procs z).pgdir = ground (arith, same) in
          let (pos, e) = here k r (subst (λ x. Counts after x k r) this c) in
          (pos, ap (λ x. users nproc x left) this ∙ e)
      | inr other ↦
          let ne : d ≢ (procs z).pgdir = λ e. ground (arith, e, other) in
          let (pos, e) = shared.exact d k r (back d k r ne c) in (pos, users-left_apart d ne ∙ e)
    ];
    once = λ d k l r q a b. elim (Bool-cases (d == (procs z).pgdir)) [
      | inl same ↦
          let this : d ≡ (procs z).pgdir = ground (arith, same) in
          once k l r q (subst (λ x. Counts after x k r) this a)
            (subst (λ x. Counts after x l q) this b)
      | inr other ↦
          let ne : d ≢ (procs z).pgdir = λ e. ground (arith, e, other) in
          shared.once d k l r q (back d k r ne a) (back d l q ne b)
    ];
    owned = λ i h u.
        let (ne, slot) = left-slot i u in
        let was : is_unused (procs i).state ≡ false =
          sym (ap (λ s. is_unused (Slot.state s)) slot) ∙ u in
        subst (λ s. Owned (Slot.pgdir s)) (sym slot) (kept i h ne was);
  }
    where
      Owned : ℕ → Type 0
      Owned d = (users nproc d left ≡ 1) ⊎ ((k : ℕ) × (r : ℕ) × Counts after d k r)

      kept : (i : ℕ) → i < nproc → i ≢ z → is_unused (procs i).state ≡ false → Owned (procs i).pgdir
      kept i h ne u = elim (Bool-cases ((procs i).pgdir == (procs z).pgdir)) [
        | inl same ↦
            let this : (procs i).pgdir ≡ (procs z).pgdir = ground (arith, same) in
            let (k, r, c) = still i h ne u this in
            inr (k, r, subst (λ d. Counts after d k r) (sym this) c)
        | inr other ↦
            let apart : (procs i).pgdir ≢ (procs z).pgdir = λ e. ground (arith, e, other) in
            elim (shared.owned i h u) [
              | inl single ↦ inl (users-left_apart (procs i).pgdir apart ∙ single)
              | inr (k, r, c) ↦ inr (k, r, on (procs i).pgdir k r apart c)
            ]
      ]

  -- The last user of its directory, which is not counted afterwards.
  pub last-Shared :
      (uvms after : ℕ → Uvm)
      → Shared procs uvms
      → users nproc (procs z).pgdir procs ≡ 1
      → ((k r : ℕ) → ¬ (Counts after (procs z).pgdir k r))
      → ((d k r : ℕ) → d ≢ (procs z).pgdir → Counts after d k r → Counts uvms d k r)
      → ((d k r : ℕ) → d ≢ (procs z).pgdir → Counts uvms d k r → Counts after d k r)
      → Shared left after
  last-Shared uvms after shared single uncounted back on =
      left-Shared uvms after shared back on (λ k r c. absurd (uncounted k r c))
        (λ k l r q a b. absurd (uncounted k r a))
        (λ i h ne u e. absurd (
          omega (
            arith,
            single,
            users-two nproc (procs z).pgdir procs i z h inside ne
                (used-uses (procs i) (procs z).pgdir u e)
                (used-uses (procs z) (procs z).pgdir used refl),
          )))
