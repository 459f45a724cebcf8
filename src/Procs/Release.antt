-- ===== src/Procs/Release.antt =====
-- A process less: `freevm` for `wait` and `exec` of p5/xv6-public.
use cs537_group_projects.Base.{
  ℕ, ◌-◌, ◌<◌, ◌≤◌, ◌≡◌, ◌≢◌, ◌⊎◌, inl, inr, refl, sym, ap, subst, ◌∙◌, ◌∷◌, none, some, true,
  false, ◌==◌, ltb, arith, Bool-cases, Option-cases, update, update-there, update-apart,
}
use cs537_group_projects.Procs.Calls.{
  Slot, Uvm, Kernel, ok, nproc, is_unused, locate_uvmrefcount, freevm, give_back,
}
use cs537_group_projects.Procs.Users.{users}
use cs537_group_projects.Procs.Shared.{Counts, Shared, Located, locate-Located, Counts-same}
use cs537_group_projects.Procs.Leave.{users-left, left-Shared, last-Shared}

-- What `freevm` of directory `d` does, with the processes `after` that use directories from then on:
-- `d` is given back when none of them uses it, and kept when one does.
pub record Released (s t : Kernel) (after : ℕ → Slot) (d : ℕ) : Type 0 where
  pub procs : t.procs ≡ s.procs
  pub next_pid : t.next_pid ≡ s.next_pid
  pub shared : Shared after t.uvms
  pub given :
      ((t.dropped ≡ s.dropped) × (1 ≤ users nproc d after))
      ⊎ ((t.dropped ≡ d ∷ s.dropped) × (users nproc d after ≡ 0))

-- Process `z` is a user of its directory no more.
module _ (procs : ℕ → Slot) (z : ℕ) (gone : Slot) (inside : z < nproc)
    (used : is_unused (procs z).state ≡ false) (unused_now : is_unused gone.state ≡ true) where
  abbrev left : ℕ → Slot
  left = update procs z gone

  -- One user of several.
  fewer-Shared :
      (uvms : ℕ → Uvm) (k r : ℕ)
      → Shared procs uvms
      → Counts uvms (procs z).pgdir k r
      → (r - 1 == 0) ≡ false
      → Shared left (update uvms k (record (uvms k) { refcount = some (r - 1) }))
  fewer-Shared uvms k r shared c several =
      let (pos, exact) = shared.exact (procs z).pgdir k r c in
      left-Shared procs z gone inside used unused_now uvms after shared
        (λ d l q ne b. before d l q (apart d l q ne b) b)
        (λ d l q ne b.
          let other : l ≢ k = λ e. ne (sym b.dir ∙ ap (λ x. (uvms x).dir) e ∙ c.dir) in
          Counts-same uvms after d l q (update-apart uvms k lowered l other) b)
        (λ l q b.
          let (count, dir) = written l q b in
          (
            ground (arith, pos, several, count),
            omega (arith, users-left procs z gone inside used unused_now, exact, count, pos),
          ))
        (λ l m q p a b. only l q a ∙ sym (only m p b)) (λ i h ne u e. (k, r - 1, listed))
    where
      lowered : Uvm
      lowered = record (uvms k) { refcount = some (r - 1) }

      after : ℕ → Uvm
      after = update uvms k lowered

      listed : Counts after (procs z).pgdir k (r - 1)
      listed =
          let here = update-there uvms k lowered in
          record { inside = c.inside; count = ap Uvm.refcount here; dir = ap Uvm.dir here ∙ c.dir }

      before : (d l q : ℕ) → l ≢ k → Counts after d l q → Counts uvms d l q
      before d l q other b =
          Counts-same after uvms d l q (sym (update-apart uvms k lowered l other)) b

      apart : (d l q : ℕ) → d ≢ (procs z).pgdir → Counts after d l q → l ≢ k
      apart d l q ne b e =
          ne (
            sym b.dir
            ∙ ap (λ x. (after x).dir) e
            ∙ ap Uvm.dir (update-there uvms k lowered)
            ∙ c.dir)

      only : (l q : ℕ) → Counts after (procs z).pgdir l q → l ≡ k
      only l q b = elim (Bool-cases (l == k)) [
        | inl same ↦ ground (arith, same)
        | inr other ↦
            let ne : l ≢ k = λ e. ground (arith, e, other) in
            shared.once (procs z).pgdir l k q r (before (procs z).pgdir l q ne b) c
      ]

      written : (l q : ℕ) → Counts after (procs z).pgdir l q → (r - 1 ≡ q) × (l ≡ k)
      written l q b =
          let same = only l q b in
          let count = subst (λ x. (after x).refcount ≡ some q) same b.count in
          let here = ap Uvm.refcount (update-there uvms k lowered) in (cc, same)

  -- The last user of a directory that is counted.
  none-Shared :
      (uvms : ℕ → Uvm) (k : ℕ)
      → Shared procs uvms
      → Counts uvms (procs z).pgdir k 1
      → Shared left (update uvms k (record (uvms k) { refcount = none }))
  none-Shared uvms k shared c =
      last-Shared procs z gone inside used unused_now uvms after shared
        (shared.exact (procs z).pgdir k 1 c).1
        (λ l q b.
          let other = filled (procs z).pgdir l q b in
          other (shared.once (procs z).pgdir l k q 1 (before (procs z).pgdir l q other b) c))
        (λ d l q ne b. before d l q (filled d l q b) b)
        (λ d l q ne b.
          let other : l ≢ k = λ e. ne (sym b.dir ∙ ap (λ x. (uvms x).dir) e ∙ c.dir) in
          Counts-same uvms after d l q (update-apart uvms k emptied l other) b)
    where
      emptied : Uvm
      emptied = record (uvms k) { refcount = none }

      after : ℕ → Uvm
      after = update uvms k emptied

      before : (d l q : ℕ) → l ≢ k → Counts after d l q → Counts uvms d l q
      before d l q other b =
          Counts-same after uvms d l q (sym (update-apart uvms k emptied l other)) b

      filled : (d l q : ℕ) → Counts after d l q → l ≢ k
      filled d l q b e =
          let count = subst (λ x. (after x).refcount ≡ some q) e b.count in
          let here = ap Uvm.refcount (update-there uvms k emptied) in cc

  pub freevm-Released :
      (s : Kernel)
      → Shared procs s.uvms
      → (procs z).pgdir ≢ 0
      → (t : Kernel) × (freevm (procs z).pgdir s ≡ ok t) × Released s t left (procs z).pgdir
  unfolding freevm give_back
  freevm-Released s shared real =
      let not_null : ((procs z).pgdir == 0) ≡ false = ground (arith, real) in
      elim (Option-cases (locate_uvmrefcount s.uvms (procs z).pgdir)) [
        | inl nowhere ↦
            let uncounted : (k r : ℕ) → ¬ (Counts s.uvms (procs z).pgdir k r) =
              subst (Located s.uvms (procs z).pgdir) nowhere
                (locate-Located s.uvms (procs z).pgdir) in
            let single : users nproc (procs z).pgdir procs ≡ 1 = elim (shared.owned z inside used) [
              | inl alone ↦ alone
              | inr (k, r, c) ↦ absurd (uncounted k r c)
            ] in
            (
              record s { dropped = (procs z).pgdir ∷ s.dropped },
              rw (freevm, nowhere, give_back, not_null) refl,
              record {
                procs = refl;
                next_pid = refl;
                shared =
                    last-Shared procs z gone inside used unused_now s.uvms s.uvms shared single
                      uncounted (λ d k r ne b. b) (λ d k r ne b. b);
                given =
                    inr
                      (refl, omega (arith, users-left procs z gone inside used unused_now, single));
              },
            )
        | inr (k, at) ↦
            let (r, c) =
              subst (Located s.uvms (procs z).pgdir) at (locate-Located s.uvms (procs z).pgdir) in
            counted_release s shared not_null k r at c
      ]
    where
      counted_release :
          (s : Kernel)
          → Shared procs s.uvms
          → ((procs z).pgdir == 0) ≡ false
          → (k r : ℕ) → locate_uvmrefcount s.uvms (procs z).pgdir ≡ some k
          → Counts s.uvms (procs z).pgdir k r
          → (t : Kernel) × (freevm (procs z).pgdir s ≡ ok t) × Released s t left (procs z).pgdir
      counted_release s shared not_null k r at c =
          let (pos, exact) = shared.exact (procs z).pgdir k r c in
          let count = c.count in
          let valid : ltb r 1 ≡ false = ground (arith, pos) in
          elim (Bool-cases (r - 1 == 0)) [
            | inl last ↦
                let alone : r ≡ 1 = ground (arith, pos, last) in
                (
                  record s {
                    uvms = update s.uvms k (record (s.uvms k) { refcount = none });
                    dropped = (procs z).pgdir ∷ s.dropped;
                  },
                  rw (freevm, at, count, valid, last, give_back, not_null) refl,
                  record {
                    procs = refl;
                    next_pid = refl;
                    shared =
                        none-Shared s.uvms k shared
                          (subst (λ x. Counts s.uvms (procs z).pgdir k x) alone c);
                    given = inr (
                      refl,
                      omega (arith, users-left procs z gone inside used unused_now, exact, alone),
                    );
                  },
                )
            | inr several ↦
                let remaining : users nproc (procs z).pgdir left ≡ r - 1 =
                  omega (arith, users-left procs z gone inside used unused_now, exact, pos) in
                (
                  record s {
                    uvms = update s.uvms k (record (s.uvms k) { refcount = some (r - 1) });
                  },
                  rw (freevm, at, count, valid, several) refl,
                  record {
                    procs = refl;
                    next_pid = refl;
                    shared = fewer-Shared s.uvms k r shared c several;
                    given = inl (refl, ground (arith, remaining, several, pos));
                  },
                )
          ]
