-- ===== src/Procs/Shared.antt =====
-- What holds of the page directories of p5/xv6-public and their counts between two calls.
use cs537_group_projects.Base.{
  ℕ, ◌<◌, ◌≤◌, ◌≡◌, ◌⊎◌, inl, inr, refl, sym, ap, subst, ◌∙◌, Option, none, some, true, false, ◌==◌,
  arith, Option-cases, FirstIn, first_from-FirstIn,
}
use cs537_group_projects.Procs.Calls.{
  Slot, Uvm, nproc, is_unused, counts, is_free, locate_uvmrefcount, free_entry,
}
use cs537_group_projects.Procs.Users.{uses, users, users-same}

-- Entry `k` counts `r` users of the directory.
pub record Counts (uvms : ℕ → Uvm) (d k r : ℕ) : Type 0 where
  pub inside : k < nproc
  pub count : (uvms k).refcount ≡ some r
  pub dir : (uvms k).dir ≡ d

-- An entry that is the same in another table, and one that is written.
pub Counts-same :
    (uvms after : ℕ → Uvm) (d k r : ℕ) → after k ≡ uvms k → Counts uvms d k r → Counts after d k r
Counts-same uvms after d k r e c = record {
  inside = c.inside;
  count = ap Uvm.refcount e ∙ c.count;
  dir = ap Uvm.dir e ∙ c.dir;
}

pub Counts-written :
    (after : ℕ → Uvm) (d k q : ℕ) (o : Option ℕ) (e : ℕ)
    → after k ≡ record { refcount = o; dir = e }
    → Counts after d k q
    → (o ≡ some q) × (e ≡ d)
Counts-written after d k q o e here c =
    (sym (ap Uvm.refcount here) ∙ c.count, sym (ap Uvm.dir here) ∙ c.dir)

-- Each count is that of the users of its directory, of which there is one at least; no directory is
-- counted twice, and one that is not counted has one user.
pub record Shared (procs : ℕ → Slot) (uvms : ℕ → Uvm) : Type 0 where
  pub exact : (d k r : ℕ) → Counts uvms d k r → (1 ≤ r) × (users nproc d procs ≡ r)
  pub once : (d k l r q : ℕ) → Counts uvms d k r → Counts uvms d l q → k ≡ l
  pub owned :
      (i : ℕ)
      → i < nproc
      → is_unused (procs i).state ≡ false
      → (users nproc (procs i).pgdir procs ≡ 1)
        ⊎ ((k : ℕ) × (r : ℕ) × Counts uvms (procs i).pgdir k r)

pub used-uses : (s : Slot) (d : ℕ) → is_unused s.state ≡ false → s.pgdir ≡ d → uses s d ≡ true
used-uses s d u e = let same : (s.pgdir == d) ≡ true = ground (arith, e) in rw (u, same) refl

counts-some : (u : Uvm) (d : ℕ) → counts u d ≡ true → (r : ℕ) × (u.refcount ≡ some r) × (u.dir ≡ d)
counts-some u d h = elim (Option-cases u.refcount) [
  | inl nothing ↦ let no : counts u d ≡ false = rw nothing refl in cc
  | inr (r, e) ↦
      let same : counts u d ≡ (u.dir == d) = rw e refl in (r, e, ground (arith, sym same ∙ h))
]

counts-true : (u : Uvm) (d r : ℕ) → u.refcount ≡ some r → u.dir ≡ d → counts u d ≡ true
counts-true u d r e f = let same : counts u d ≡ (u.dir == d) = rw e refl in same ∙ ground (arith, f)

-- What `locate_uvmrefcount` finds.
abbrev pub Located : (ℕ → Uvm) → ℕ → Option ℕ → Type 0
Located uvms d none = (k r : ℕ) → ¬ (Counts uvms d k r)
Located uvms d (some k) = (r : ℕ) × Counts uvms d k r

located :
    (uvms : ℕ → Uvm) (d : ℕ) (o : Option ℕ)
    → FirstIn (λ i. counts (uvms i) d) 0 nproc o
    → Located uvms d o
located uvms d none first = λ k r c.
    let no = first k (omega arith) c.inside in
    let yes = counts-true (uvms k) d r c.count c.dir in cc
located uvms d (some k) (low, high, hit, before) =
    let (r, count, dir) = counts-some (uvms k) d hit in
    (r, record { inside = high; count = count; dir = dir })

pub locate-Located : (uvms : ℕ → Uvm) (d : ℕ) → Located uvms d (locate_uvmrefcount uvms d)
unfolding locate_uvmrefcount
locate-Located uvms d =
    located uvms d (locate_uvmrefcount uvms d)
      (first_from-FirstIn nproc 0 nproc (λ i. counts (uvms i) d) refl)

pub free_entry-free :
    (uvms : ℕ → Uvm) (k : ℕ) → free_entry uvms ≡ some k → (k < nproc) × ((uvms k).refcount ≡ none)
unfolding free_entry
free_entry-free uvms k e =
    from (free_entry uvms) e (first_from-FirstIn nproc 0 nproc (λ i. is_free (uvms i)) refl)
  where
    none_left : (u : Uvm) → is_free u ≡ true → u.refcount ≡ none
    none_left u h = elim (Option-cases u.refcount) [
      | inl free ↦ free
      | inr (r, e) ↦ let taken : is_free u ≡ false = rw e refl in cc
    ]

    from :
        (o : Option ℕ)
        → o ≡ some k
        → FirstIn (λ i. is_free (uvms i)) 0 nproc o
        → (k < nproc) × ((uvms k).refcount ≡ none)
    from none f first = cc
    from (some j) f (low, high, hit, before) =
        let same : j ≡ k = cc in
        (omega (arith, same, high), ap (λ i. (uvms i).refcount) (sym same) ∙ none_left (uvms j) hit)

-- The same users and directories, under other states.
pub same-Shared :
    (procs after : ℕ → Slot) (uvms : ℕ → Uvm)
    → Shared procs uvms
    → ((i : ℕ)
        → i < nproc
        → (is_unused (after i).state ≡ is_unused (procs i).state)
          × ((after i).pgdir ≡ (procs i).pgdir))
    → Shared after uvms
same-Shared procs after uvms shared same =
    let uses_same =
      λ (d i : ℕ) (h : i < nproc). uses-same (procs i) (after i) d (same i h).0 (same i h).1 in
    let count = λ (d : ℕ). users-same nproc d procs after (uses_same d) in
    record {
      exact = λ d k r c. let (pos, e) = shared.exact d k r c in (pos, count d ∙ e);
      once = shared.once;
      owned = λ i h u.
          let (state, dir) = same i h in
          elim (shared.owned i h (sym state ∙ u)) [
            | inl e ↦ inl (ap (λ d. users nproc d after) dir ∙ count (procs i).pgdir ∙ e)
            | inr (k, r, c) ↦ inr (k, r, subst (λ d. Counts uvms d k r) (sym dir) c)
          ];
    }
  where
    uses-same :
        (s t : Slot) (d : ℕ)
        → is_unused t.state ≡ is_unused s.state
        → t.pgdir ≡ s.pgdir
        → uses t d ≡ uses s d
    uses-same s t d e f = rw (e, f) refl
