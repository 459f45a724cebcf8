-- ===== src/Procs/Room.antt =====
-- `allocate_uvmrefcount` of p5/xv6-public/vm.c finds room while the process table has an entry left.
use cs537_group_projects.Base.{
  ℕ, zero, suc, ◌<◌, ◌≤◌, ◌≡◌, ◌≢◌, refl, sym, ap, subst, ◌∙◌, inl, inr, Option, none, some, Bool,
  true, false, ◌==◌, arith, if◌then◌else◌, Bool-cases, Option-cases, first_from, FirstIn,
  first_from-FirstIn,
}
use cs537_group_projects.Procs.Calls.{Slot, Uvm, nproc, is_unused, is_free, free_entry}
use cs537_group_projects.Procs.Users.{uses, one, users}
use cs537_group_projects.Procs.Shared.{Shared}

-- Not all of `n + 1` numbers have places of their own below `n`.
pigeons :
    (n : ℕ) (f : ℕ → ℕ)
    → ((i : ℕ) → i < suc n → f i < n)
    → ¬ ((i j : ℕ) → i < suc n → j < suc n → f i ≡ f j → i ≡ j)
pigeons zero f below apart = absurd (omega (arith, below 0 (omega arith)))
pigeons (suc n) f below apart = pigeons n moved moved_below moved_apart
  where
    moved : ℕ → ℕ
    moved i = if f i == n then f (suc n) else f i

    last : (i : ℕ) → i < suc n → f i ≢ f (suc n)
    last i h e = omega (arith, h, apart i (suc n) (omega (arith, h)) (omega arith) e)

    moved_below : (i : ℕ) → i < suc n → moved i < n
    moved_below i h =
        let here = below i (omega (arith, h)) in
        let top = below (suc n) (omega arith) in
        elim (Bool-cases (f i == n)) [
          | inl at ↦
              let ne : f (suc n) ≢ n = λ e. last i h (ground (arith, at, e)) in
              rw at (ground (arith, top, ne))
          | inr off ↦ rw off (ground (arith, here, off))
        ]

    moved_apart : (i j : ℕ) → i < suc n → j < suc n → moved i ≡ moved j → i ≡ j
    moved_apart i j hi hj e = elim (Bool-cases (f i == n)) [
      | inl at ↦ elim (Bool-cases (f j == n)) [
        | inl too ↦ apart i j (omega (arith, hi)) (omega (arith, hj)) (ground (arith, at, too))
        | inr off ↦
            let top : moved i ≡ f (suc n) = rw at refl in
            let own : moved j ≡ f j = rw off refl in absurd (last j hj (sym own ∙ sym e ∙ top))
      ]
      | inr off ↦ elim (Bool-cases (f j == n)) [
        | inl at ↦
            let top : moved j ≡ f (suc n) = rw at refl in
            let own : moved i ≡ f i = rw off refl in absurd (last i hi (sym own ∙ e ∙ top))
        | inr too ↦
            let first : moved i ≡ f i = rw off refl in
            let second : moved j ≡ f j = rw too refl in
            apart i j (omega (arith, hi)) (omega (arith, hj)) (sym first ∙ e ∙ second)
      ]
    ]

-- No user among the first `n`, and none is counted.
pub users-zero :
    (n d : ℕ) (procs : ℕ → Slot)
    → ((i : ℕ) → i < n → uses (procs i) d ≡ false)
    → users n d procs ≡ 0
unfolding users
users-zero zero d procs miss = refl
users-zero (suc n) d procs miss =
    omega (
      arith,
      ap one (miss n (omega arith)),
      users-zero n d procs (λ i h. miss i (omega (arith, h))),
    )

uses-true : (s : Slot) (d : ℕ) → uses s d ≡ true → (is_unused s.state ≡ false) × (s.pgdir ≡ d)
uses-true s d u = elim (Bool-cases (is_unused s.state)) [
  | inl free ↦ let no : uses s d ≡ false = rw free refl in cc
  | inr taken ↦
      let same : uses s d ≡ (s.pgdir == d) = rw taken refl in (taken, ground (arith, sym same ∙ u))
]

module _ (procs : ℕ → Slot) (uvms : ℕ → Uvm) (shared : Shared procs uvms) where
  abbrev first_or_zero : Option ℕ → ℕ
  first_or_zero none = 0
  first_or_zero (some i) = i

  -- The first process that uses the directory of entry `k`.
  abbrev user : ℕ → ℕ
  user k = first_or_zero (first_from nproc 0 (λ i. uses (procs i) (uvms k).dir))

  abbrev Uses : ℕ → ℕ → Type 0
  Uses k i = (i < nproc) × (is_unused (procs i).state ≡ false) × ((procs i).pgdir ≡ (uvms k).dir)

  -- An entry that counts has one.
  user-Uses : (k r : ℕ) → k < nproc → (uvms k).refcount ≡ some r → Uses k (user k)
  user-Uses k r h e =
      let (pos, exact) =
        shared.exact (uvms k).dir k r (record { inside = h; count = e; dir = refl }) in
      from (first_from nproc 0 test) (first_from-FirstIn nproc 0 nproc test refl)
        (omega (arith, pos, exact))
    where
      test : ℕ → Bool
      test i = uses (procs i) (uvms k).dir

      from :
          (o : Option ℕ)
          → FirstIn test 0 nproc o
          → 1 ≤ users nproc (uvms k).dir procs
          → Uses k (first_or_zero o)
      from none miss some_user = absurd (
          omega (
            arith,
            some_user,
            users-zero nproc (uvms k).dir procs (λ i lt. miss i (omega arith) lt),
          ))
      from (some i) (low, high, hit, first) some_user =
          let (state, dir) = uses-true (procs i) (uvms k).dir hit in (high, state, dir)

  full_entry : free_entry uvms ≡ none → (k : ℕ) → k < nproc → (r : ℕ) × ((uvms k).refcount ≡ some r)
  unfolding free_entry
  full_entry full k h =
      let missed =
        subst (FirstIn (λ i. is_free (uvms i)) 0 nproc) full
          (first_from-FirstIn nproc 0 nproc (λ i. is_free (uvms i)) refl) in
      elim (Option-cases (uvms k).refcount) [
        | inr (r, e) ↦ (r, e)
        | inl empty ↦
            let open_one : is_free (uvms k) ≡ true = rw empty refl in
            let closed = missed k (omega arith) h in cc
      ]

  -- With an UNUSED process, not all entries count.
  pub room :
      (j : ℕ) → j < nproc → is_unused (procs j).state ≡ true → (m : ℕ) × (free_entry uvms ≡ some m)
  room j inside free = elim (Option-cases (free_entry uvms)) [
    | inr (m, e) ↦ (m, e)
    | inl full ↦ absurd (pigeons nproc seat (seat_below full) (seat_apart full))
  ]
    where
      seat : ℕ → ℕ
      seat k = if k == nproc then j else user k

      using : free_entry uvms ≡ none → (k : ℕ) → k < nproc → Uses k (user k)
      using full k h = let (r, e) = full_entry full k h in user-Uses k r h e

      seat_below : free_entry uvms ≡ none → (k : ℕ) → k < suc nproc → seat k < nproc
      seat_below full k h = elim (Bool-cases (k == nproc)) [
        | inl last ↦ rw last inside
        | inr other ↦ rw other (using full k (ground (arith, h, other))).0
      ]

      apart : free_entry uvms ≡ none → (k : ℕ) → k < nproc → user k ≢ j
      apart full k h e =
          let taken = subst (λ i. is_unused (procs i).state ≡ false) e (using full k h).1 in cc

      once : free_entry uvms ≡ none → (k l : ℕ) → k < nproc → l < nproc → user k ≡ user l → k ≡ l
      once full k l hk hl e =
          let (r, count) = full_entry full k hk in
          let (q, other) = full_entry full l hl in
          let same : (uvms l).dir ≡ (uvms k).dir =
            sym (using full l hl).2 ∙ ap (λ i. (procs i).pgdir) (sym e) ∙ (using full k hk).2 in
          shared.once (uvms k).dir k l r q (record { inside = hk; count = count; dir = refl })
            (record { inside = hl; count = other; dir = same })

      seat_apart :
          free_entry uvms ≡ none
          → (k l : ℕ) → k < suc nproc
          → l < suc nproc
          → seat k ≡ seat l
          → k ≡ l
      seat_apart full k l hk hl e = elim (Bool-cases (k == nproc)) [
        | inl last ↦ elim (Bool-cases (l == nproc)) [
          | inl too ↦ ground (arith, last, too)
          | inr other ↦
              let mine : seat k ≡ j = rw last refl in
              let theirs : seat l ≡ user l = rw other refl in
              absurd (apart full l (ground (arith, hl, other)) (sym theirs ∙ sym e ∙ mine))
        ]
        | inr other ↦ elim (Bool-cases (l == nproc)) [
          | inl last ↦
              let mine : seat l ≡ j = rw last refl in
              let theirs : seat k ≡ user k = rw other refl in
              absurd (apart full k (ground (arith, hk, other)) (sym theirs ∙ e ∙ mine))
          | inr too ↦
              let first : seat k ≡ user k = rw other refl in
              let second : seat l ≡ user l = rw too refl in
              once full k l (ground (arith, hk, other)) (ground (arith, hl, too))
                (sym first ∙ e ∙ second)
        ]
      ]
