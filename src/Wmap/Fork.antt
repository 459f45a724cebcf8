-- ===== src/Wmap/Fork.antt =====
-- The loop of `fork` in p4/xv6-public/proc.c that copies the mappings to the child.
use cs537_group_projects.Base.{
  ◌==◌, ℕ, zero, suc, ◌+◌, ◌<◌, ◌≤◌, ◌≡◌, ◌⊎◌, inl, inr, refl, sym, ap, ◌∙◌, List, [], ◌∷◌, Option,
  none, some, true, false, length, arith, Bool-cases, Option-cases, if◌then◌else◌,
}
use cs537_group_projects.Wmap.State.{
  u32, page_size, map_private, map_shared, has, Entry, PageDir, walkpgdir, set_pte, without_w, pdx,
}
use cs537_group_projects.Wmap.Map.{pages}

-- The child: its mappings and its page table, which `copyuvm` made for the memory below `sz`.
pub record Child : Type 0 where
  pub mmaps : List Entry
  pub pgdir : PageDir

-- The pages of a private mapping are made read-only in the child; none where a table is missing.
unfoldable pub protect_child : ℕ → ℕ → PageDir → Option PageDir
unfolding walkpgdir set_pte
protect_child zero va pgdir = some pgdir
protect_child (suc n) va pgdir = elim (walkpgdir pgdir va) [
  | none ↦ none
  | some pte ↦ protect_child n (u32 (va + page_size)) (set_pte pgdir va (without_w pte))
]

-- The copy of an entry. The process 0 is no process.
unfoldable pub copy_entry : Entry → Entry
unfolding has
copy_entry me = if has me.flags map_shared then record me { mapping_process = 0 } else me

unfoldable pub copy_mapping : Entry → Child → Option Child
unfolding protect_child copy_entry has
copy_mapping me c =
    elim (if has me.flags map_private
      then protect_child (pages me.length) me.addr c.pgdir
      else some c.pgdir) [
        | none ↦ none
        | some pgdir ↦ some (record { mmaps = copy_entry me ∷ c.mmaps; pgdir = pgdir })
      ]

-- The loop; `free` is for how many more pages `kalloc` has room. At none `fork` returns -1.
unfoldable pub copy_mappings : ℕ → List Entry → Child → Option Child
unfolding copy_mapping
copy_mappings free [] c = some c
copy_mappings zero (me ∷ mes) c = none
copy_mappings (suc free) (me ∷ mes) c = elim (copy_mapping me c) [
  | none ↦ none
  | some d ↦ copy_mappings free mes d
]

-- The copies of the mappings, the last one first, before the ones there.
unfoldable pub copies : List Entry → List Entry → List Entry
copies [] there = there
copies (me ∷ mes) there = copies mes (copy_entry me ∷ there)

-- No mapping is private.
abbrev pub NonePrivate : List Entry → Type 0
NonePrivate [] = Unit
NonePrivate (me ∷ mes) = (has me.flags map_private ≡ false) × NonePrivate mes

-- Without private mappings, and with a page for each mapping, `fork` copies all mappings to the
-- child, in reverse order, and leaves the child's page table as it is.
pub copy_mappings-copies :
    (free : ℕ) (mes : List Entry) (c : Child)
    → NonePrivate mes
    → length mes ≤ free
    → copy_mappings free mes c ≡ some (record { mmaps = copies mes c.mmaps; pgdir = c.pgdir })
unfolding copy_mappings copies
copy_mappings-copies zero [] c shared room = refl
copy_mappings-copies (suc free) [] c shared room = refl
copy_mappings-copies zero (me ∷ mes) c shared room = absurd (omega (arith, room))
copy_mappings-copies (suc free) (me ∷ mes) c (other, shared) room =
    let one : copy_mapping me c
        ≡ some (record { mmaps = copy_entry me ∷ c.mmaps; pgdir = c.pgdir }) =
      rw (copy_mapping, other) refl in
    rw (copy_mappings, one)
      (copy_mappings-copies free mes (record { mmaps = copy_entry me ∷ c.mmaps; pgdir = c.pgdir })
        shared (omega (arith, room)))

-- A private mapping without a table for its first page, behind any number of others.
abbrev pub SomeUnmapped : PageDir → List Entry → Type 0
SomeUnmapped pgdir [] = ⊥
SomeUnmapped pgdir (me ∷ mes) =
    ((has me.flags map_private ≡ true) × (0 < me.length) × (pgdir (pdx me.addr) ≡ none))
    ⊎ SomeUnmapped pgdir mes

-- A table that is missing stays so.
protect_child-none :
    (n va d : ℕ) (pgdir q : PageDir)
    → pgdir d ≡ none
    → protect_child n va pgdir ≡ some q
    → q d ≡ none
unfolding protect_child
protect_child-none zero va d pgdir q missing e =
    let same : pgdir ≡ q = cc in sym (ap (λ k. k d) same) ∙ missing
protect_child-none (suc n) va d pgdir q missing e = elim (Option-cases (walkpgdir pgdir va)) [
  | inl nothing ↦
      let no_table : protect_child (suc n) va pgdir ≡ none = rw (protect_child, nothing) refl in cc
  | inr (pte, found) ↦
      let next : protect_child (suc n) va pgdir
          ≡ protect_child n (u32 (va + page_size)) (set_pte pgdir va (without_w pte)) =
        rw (protect_child, found) refl in
      protect_child-none n (u32 (va + page_size)) d (set_pte pgdir va (without_w pte)) q
        (set_pte-none pgdir va (without_w pte) d missing) (sym next ∙ e)
]
  where
    set_pte-none : (pgdir : PageDir) (va pte d : ℕ) → pgdir d ≡ none → set_pte pgdir va pte d ≡ none
    set_pte-none pgdir va pte d missing = elim (Bool-cases (d == pdx va)) [
      | inl here ↦ rw (set_pte, here, missing) refl
      | inr other ↦ rw (set_pte, other) missing
    ]

copy_mapping-none :
    (me : Entry) (c d : Child) (k : ℕ)
    → c.pgdir k ≡ none
    → copy_mapping me c ≡ some d
    → d.pgdir k ≡ none
unfolding copy_mapping
copy_mapping-none me c d k missing e = elim (Bool-cases (has me.flags map_private)) [
  | inl private ↦ elim (Option-cases (protect_child (pages me.length) me.addr c.pgdir)) [
    | inl nothing ↦
        let failed : copy_mapping me c ≡ none = rw (copy_mapping, private, nothing) refl in cc
    | inr (q, found) ↦
        let copied : copy_mapping me c
            ≡ some (record { mmaps = copy_entry me ∷ c.mmaps; pgdir = q }) =
          rw (copy_mapping, private, found) refl in
        let same : record { mmaps = copy_entry me ∷ c.mmaps; pgdir = q } ≡ d = cc in
        sym (ap (λ x. Child.pgdir x k) same)
        ∙ protect_child-none (pages me.length) me.addr k c.pgdir q missing found
  ]
  | inr other ↦
      let copied : copy_mapping me c
          ≡ some (record { mmaps = copy_entry me ∷ c.mmaps; pgdir = c.pgdir }) =
        rw (copy_mapping, other) refl in
      let same : record { mmaps = copy_entry me ∷ c.mmaps; pgdir = c.pgdir } ≡ d = cc in
      sym (ap (λ x. Child.pgdir x k) same) ∙ missing
]

SomeUnmapped-kept :
    (mes : List Entry) (pgdir q : PageDir)
    → ((k : ℕ) → pgdir k ≡ none → q k ≡ none)
    → SomeUnmapped pgdir mes
    → SomeUnmapped q mes
SomeUnmapped-kept [] pgdir q kept none_there = none_there
SomeUnmapped-kept (me ∷ mes) pgdir q kept (inl (private, long, missing)) =
    inl (private, long, kept (pdx me.addr) missing)
SomeUnmapped-kept (me ∷ mes) pgdir q kept (inr later) =
    inr (SomeUnmapped-kept mes pgdir q kept later)

-- The mapping itself.
copy_mapping-private :
    (me : Entry) (c : Child)
    → has me.flags map_private ≡ true
    → 0 < me.length
    → c.pgdir (pdx me.addr) ≡ none
    → copy_mapping me c ≡ none
unfolding copy_mapping
copy_mapping-private me c private long missing =
    rw (copy_mapping, private, first_page (pages me.length) (omega (arith, long))) refl
  where
    no_entry : walkpgdir c.pgdir me.addr ≡ none
    no_entry = rw (walkpgdir, missing) refl

    first_page : (n : ℕ) → 0 < n → protect_child n me.addr c.pgdir ≡ none
    first_page zero pos = absurd (omega (arith, pos))
    first_page (suc n) pos = rw (protect_child, no_entry) refl

-- `fork` fails in a process with a private mapping of positive length for which the page table that
-- `copyuvm` gave the child has no table: the pointer that `walkpgdir` gives for it is 0.
pub copy_mappings-private :
    (free : ℕ) (mes : List Entry) (c : Child)
    → SomeUnmapped c.pgdir mes
    → copy_mappings free mes c ≡ none
unfolding copy_mappings
copy_mappings-private zero [] c none_there = absurd none_there
copy_mappings-private (suc free) [] c none_there = absurd none_there
copy_mappings-private zero (me ∷ mes) c some_private = refl
copy_mappings-private (suc free) (me ∷ mes) c some_private =
    elim (Option-cases (copy_mapping me c)) [
      | inl failed ↦ rw (copy_mappings, failed) refl
      | inr (d, one) ↦
          rw (copy_mappings, one)
            (copy_mappings-private free mes d (
              SomeUnmapped-kept mes c.pgdir d.pgdir
                (λ k missing. copy_mapping-none me c d k missing one) (behind some_private one)))
    ]
  where
    behind :
        {d : Child}
        → SomeUnmapped c.pgdir (me ∷ mes)
        → copy_mapping me c ≡ some d
        → SomeUnmapped c.pgdir mes
    behind (inl (private, long, missing)) one =
        let failed = copy_mapping-private me c private long missing in cc
    behind (inr later) one = later
