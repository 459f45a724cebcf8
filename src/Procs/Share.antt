-- ===== src/Procs/Share.antt =====
-- A process more, with the directory of another (`clone`), of p5/xv6-public/proc.c.
use cs537_group_projects.Base.{
  ℕ, ◌+◌, ◌<◌, ◌≡◌, ◌≢◌, ◌⊎◌, inl, inr, sym, ap, subst, ◌∙◌, some, true, false, ◌==◌, arith,
  Bool-cases, Option-cases, update, update-there, update-apart,
}
use cs537_group_projects.Procs.Calls.{
  Slot, Uvm, nproc, is_unused, locate_uvmrefcount, free_entry, allocate_uvmrefcount, count_thread,
}
use cs537_group_projects.Procs.Users.{users}
use cs537_group_projects.Procs.Shared.{
  Counts, Shared, Located, locate-Located, free_entry-free, Counts-same, Counts-written,
}
use cs537_group_projects.Procs.Room.{room}
use cs537_group_projects.Procs.Fresh.{users-joined, users-joined_apart}

-- With the directory of process `cur`, which is counted from then on.
module _ (procs : ℕ → Slot) (uvms : ℕ → Uvm) (j cur : ℕ) (v : Slot) (shared : Shared procs uvms)
    (inside : j < nproc) (free : is_unused (procs j).state ≡ true)
    (taken : is_unused v.state ≡ false) (cur_inside : cur < nproc)
    (cur_used : is_unused (procs cur).state ≡ false) (same_dir : v.pgdir ≡ (procs cur).pgdir) where
  -- The counts after: entry `k` has `r` users of the directory, and the others are as they were.
  counted-Shared :
      (k r : ℕ) (after : ℕ → Uvm)
      → k < nproc
      → users nproc v.pgdir procs + 1 ≡ r
      → after k ≡ record { refcount = some r; dir = v.pgdir }
      → ((l : ℕ) → l ≢ k → after l ≡ uvms l)
      → ((l q : ℕ) → Counts uvms v.pgdir l q → l ≡ k)
      → ((d q : ℕ) → d ≢ v.pgdir → ¬ (Counts uvms d k q))
      → Shared (update procs j v) after
  counted-Shared k r after k_inside total here others only was = record {
    exact = λ d l q c. elim (Bool-cases (l == k)) [
      | inl this ↦
          let (count, dir) = written d l q this c in
          let full : users nproc v.pgdir (update procs j v) ≡ r =
            users-joined procs j v inside free taken ∙ total in
          (
            omega (arith, count, total),
            sym (ap (λ x. users nproc x (update procs j v)) dir) ∙ full ∙ count,
          )
      | inr other ↦
          let old = before d l q other c in
          let (pos, exact) = shared.exact d l q old in
          (pos, users-joined_apart procs j v inside free taken d (differs d l q other c) ∙ exact)
    ];
    once = λ d l m q p a b. elim (Bool-cases (l == k)) [
      | inl this ↦ elim (Bool-cases (m == k)) [
        | inl that ↦ ground (arith, this, that)
        | inr other ↦ absurd (differs d m p other b (sym (written d l q this a).1))
      ]
      | inr other ↦ elim (Bool-cases (m == k)) [
        | inl that ↦ absurd (differs d l q other a (sym (written d m p that b).1))
        | inr neither ↦ shared.once d l m q p (before d l q other a) (before d m p neither b)
      ]
    ];
    owned = λ i h u. elim (Bool-cases (i == j)) [
      | inl new ↦
          let slot : update procs j v i ≡ v =
            ap (update procs j v) (ground (arith, new)) ∙ update-there procs j v in
          inr (k, r, subst (λ s. Counts after (Slot.pgdir s) k r) (sym slot) listed)
      | inr old ↦
          let slot : update procs j v i ≡ procs i =
            update-apart procs j v i (λ e. ground (arith, e, old)) in
          let state : is_unused (procs i).state ≡ false =
            sym (ap (λ s. is_unused (Slot.state s)) slot) ∙ u in
          subst (λ s. Owned (Slot.pgdir s)) (sym slot) (kept i h state)
    ];
  }
    where
      listed : Counts after v.pgdir k r
      listed = record { inside = k_inside; count = ap Uvm.refcount here; dir = ap Uvm.dir here }

      Owned : ℕ → Type 0
      Owned d = (users nproc d (update procs j v) ≡ 1) ⊎ ((l : ℕ) × (q : ℕ) × Counts after d l q)

      written : (d l q : ℕ) → (l == k) ≡ true → Counts after d l q → (r ≡ q) × (v.pgdir ≡ d)
      written d l q this c =
          let same : l ≡ k = ground (arith, this) in
          let (count, dir) =
            Counts-written after d k q (some r) v.pgdir here
              (subst (λ x. Counts after d x q) same c) in
          (cc, dir)

      before : (d l q : ℕ) → (l == k) ≡ false → Counts after d l q → Counts uvms d l q
      before d l q other c =
          Counts-same after uvms d l q (sym (others l (λ e. ground (arith, e, other)))) c

      differs : (d l q : ℕ) → (l == k) ≡ false → Counts after d l q → d ≢ v.pgdir
      differs d l q other c e =
          ground (arith, other, only l q (subst (λ x. Counts uvms x l q) e (before d l q other c)))

      kept : (i : ℕ) → i < nproc → is_unused (procs i).state ≡ false → Owned (procs i).pgdir
      kept i h u = elim (Bool-cases ((procs i).pgdir == v.pgdir)) [
        | inl same ↦ inr (k, r, subst (λ d. Counts after d k r) (ground (arith, same)) listed)
        | inr apart ↦
            let ne : (procs i).pgdir ≢ v.pgdir = λ e. ground (arith, e, apart) in
            elim (shared.owned i h u) [
              | inl single ↦
                  inl (users-joined_apart procs j v inside free taken (procs i).pgdir ne ∙ single)
              | inr (l, q, c) ↦
                  let other : l ≢ k = λ e.
                    was (procs i).pgdir q ne (subst (λ x. Counts uvms (procs i).pgdir x q) e c) in
                  inr (l, q, Counts-same uvms after (procs i).pgdir l q (others l other) c)
            ]
      ]

  counted_once : (l q k r : ℕ) → Counts uvms v.pgdir k r → Counts uvms v.pgdir l q → l ≡ k
  counted_once l q k r c b = shared.once v.pgdir l k q r b c

  -- The directory is counted already.
  more-Shared :
      (k r : ℕ)
      → Counts uvms v.pgdir k r
      → Shared (update procs j v) (update uvms k (record (uvms k) { refcount = some (r + 1) }))
  more-Shared k r c =
      let raised : Uvm = record (uvms k) { refcount = some (r + 1) } in
      let (pos, exact) = shared.exact v.pgdir k r c in
      counted-Shared k (r + 1) (update uvms k raised) c.inside (omega (arith, exact))
        (update-there uvms k raised ∙ ap (λ d. record { refcount = some (r + 1); dir = d }) c.dir)
        (update-apart uvms k raised) (λ l q b. counted_once l q k r c b)
        (λ d q ne b. ne (sym b.dir ∙ c.dir))

  -- It is not: its one user so far is `cur`.
  first-Shared :
      (m : ℕ)
      → free_entry uvms ≡ some m
      → ((k r : ℕ) → ¬ (Counts uvms v.pgdir k r))
      → Shared (update procs j v) (update uvms m (record { refcount = some 2; dir = v.pgdir }))
  first-Shared m e uncounted =
      let (m_inside, empty) = free_entry-free uvms m e in
      let single : users nproc v.pgdir procs ≡ 1 =
        ap (λ d. users nproc d procs) same_dir ∙ elim (shared.owned cur cur_inside cur_used) [
          | inl alone ↦ alone
          | inr (k, r, c) ↦ absurd (uncounted k r (subst (λ d. Counts uvms d k r) (sym same_dir) c))
        ] in
      counted-Shared m 2 (update uvms m (record { refcount = some 2; dir = v.pgdir })) m_inside
        (omega (arith, single)) (update-there uvms m (record { refcount = some 2; dir = v.pgdir }))
        (update-apart uvms m (record { refcount = some 2; dir = v.pgdir }))
        (λ l q b. absurd (uncounted l q b)) (λ d q ne b. let count = b.count in cc)

  pub clone-Shared : Shared (update procs j v) (count_thread uvms v.pgdir)
  unfolding count_thread allocate_uvmrefcount
  clone-Shared = elim (Option-cases (locate_uvmrefcount uvms v.pgdir)) [
    | inl nowhere ↦
        let uncounted = subst (Located uvms v.pgdir) nowhere (locate-Located uvms v.pgdir) in
        let (m, e) = room procs uvms shared j inside free in
        rw (count_thread, nowhere, allocate_uvmrefcount, e) (first-Shared m e uncounted)
    | inr (k, at) ↦
        let (r, c) = subst (Located uvms v.pgdir) at (locate-Located uvms v.pgdir) in
        let count = c.count in rw (count_thread, at, count) (more-Shared k r c)
  ]
