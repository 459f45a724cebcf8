-- ===== src/Wmap/Disjoint.antt =====
-- `sys_wmap` where it maps: the new mapping is clear of the others, and they stay as they are.
use cs537_group_projects.Base.{
  ℕ, ◌+◌, ◌%◌, ◌^◌, ◌<◌, ◌≤◌, ◌≡◌, List, [], ◌∷◌, Option, none, some, Bool, true, false, arith,
  Option-cases, Bool-cases, inl, inr, subst, sym, ltb,
}
use cs537_group_projects.Wmap.State.{done, >>=-eq-done, u32, has, map_fixed, Entry, Proc, filedup}
use cs537_group_projects.Wmap.Map.{
  find_overlap, place, new_entry, open_file, map_at, map_checked, wmap, map_start, map_end,
}
use cs537_group_projects.Wmap.Search.{InRegion, Clear, Found, free_address-Found, find_overlap-none}

-- No two mappings of the list meet.
abbrev pub Disjoint : List Entry → Type 0
Disjoint [] = Unit
Disjoint (me ∷ mes) = Clear me.addr me.length mes × Disjoint mes

-- No mapping begins below the region.
abbrev pub FromStart : List Entry → Type 0
FromStart [] = Unit
FromStart (me ∷ mes) = (map_start ≤ me.addr) × FromStart mes

-- The mappings lie within the region, and no two meet.
pub record IsValid (mes : List Entry) : Type 0 where
  pub from : FromStart mes
  pub region : InRegion mes
  pub disjoint : Disjoint mes

-- An address that the search chose.
place-chosen :
    (addr size flags : ℕ) (mes : List Entry) (a : ℕ)
    → size < 2 ^ 31
    → InRegion mes
    → has flags map_fixed ≡ false
    → place addr size flags mes ≡ some a
    → (a + size ≤ map_end) × Found size mes a
unfolding place
place-chosen addr size flags mes a small r chosen e =
    let (b, found, good) = free_address-Found size mes small r in
    elim (Bool-cases (ltb map_end (u32 (b + size)))) [
      | inl out ↦ absurd (ground arith)
      | inr fits ↦
          let same : b ≡ a = ground arith in
          (ground (arith, good.high), subst (Found size mes) same good)
    ]

place-Clear :
    (addr size flags : ℕ) (mes : List Entry) (a : ℕ)
    → size < 2 ^ 31
    → InRegion mes
    → (has flags map_fixed ≡ true → (map_start ≤ addr) × (addr + size ≤ map_end))
    → place addr size flags mes ≡ some a
    → (map_start ≤ a) × (a + size ≤ map_end) × Clear a size mes
unfolding place
place-Clear addr size flags mes a small r fixed e = elim (Bool-cases (has flags map_fixed)) [
  | inl f ↦ elim (Option-cases (find_overlap addr size mes)) [
    | inl clear ↦
        let same : addr ≡ a = ground arith in
        let (low, high) = fixed f in
        (
          omega (arith, low, same),
          omega (arith, high, same),
          subst (λ x. Clear x size mes) same
              (find_overlap-none addr size mes (omega (arith, high)) r clear),
        )
    | inr (me, met) ↦ absurd (ground arith)
  ]
  | inr f ↦
      let (fits, found) = place-chosen addr size flags mes a small r f e in
      elim found.free [ inl past ↦ absurd (omega arith) | inr clear ↦ (found.low, fits, clear) ]
]

open_file-mmaps :
    (p q : Proc) (flags fd : ℕ) (f : Option ℕ)
    → open_file p flags fd ≡ done (some (q, f))
    → (q.mmaps ≡ p.mmaps) × (q.pid ≡ p.pid)
unfolding open_file filedup
open_file-mmaps p q flags fd f e = ground arith

map_at-mmaps :
    (kalloc : Bool) (p q : Proc) (at : Option ℕ) (size flags a : ℕ) (f : Option ℕ)
    → map_at kalloc p at size flags f ≡ done (q, some a)
    → (at ≡ some a) × (q.mmaps ≡ new_entry p a size flags f ∷ p.mmaps)
unfolding map_at
map_at-mmaps kalloc p q none size flags a f e = absurd (ground arith)
map_at-mmaps false p q (some b) size flags a f e = absurd (ground arith)
map_at-mmaps true p q (some b) size flags a f e = ground arith

-- The process after a successful call.
pub record Mapped (p q : Proc) (addr size flags a : ℕ) : Type 0 where
  pub placed : place addr size flags p.mmaps ≡ some a
  pub file : Option ℕ
  pub mmaps : q.mmaps ≡ new_entry p a size flags file ∷ p.mmaps

wmap-Mapped :
    (kalloc : Bool) (p q : Proc) (addr size flags fd a : ℕ)
    → wmap kalloc p addr size flags fd ≡ done (q, some a)
    → Mapped p q addr size flags a
unfolding wmap
wmap-Mapped kalloc p q addr size flags fd a e =
    let checked : map_checked kalloc p addr size flags fd ≡ done (q, some a) = ground arith in
    let (o, opened, rest) = >>=-eq-done {B = Proc × Option ℕ} (open_file p flags fd) _ checked in
    elim (Option-cases o) [
      | inl failed ↦ absurd (ground arith)
      | inr ((r, f), got) ↦
          let kept = open_file-mmaps p r flags fd f (ground arith) in
          let at =
            map_at-mmaps kalloc r q (place addr size flags r.mmaps) size flags a f (ground arith) in
          record { placed = ground arith; file = f; mmaps = ground arith }
    ]

-- A mapping shorter than 2 GiB that `sys_wmap` makes, in a process whose mappings lie within
-- 0x60000000 to 0x80000000 and do not meet, meets no mapping of the process: with it in front of the
-- old ones they still lie within the region and do not meet. With MAP_FIXED this wants a range within
-- the region, which the code does not test.
pub wmap-IsValid :
    (kalloc : Bool) (p q : Proc) (addr size flags fd a : ℕ)
    → IsValid p.mmaps
    → size < 2 ^ 31
    → (has flags map_fixed ≡ true → (map_start ≤ addr) × (addr + size ≤ map_end))
    → wmap kalloc p addr size flags fd ≡ done (q, some a)
    → IsValid q.mmaps × (f : Option ℕ) × (q.mmaps ≡ new_entry p a size flags f ∷ p.mmaps)
wmap-IsValid kalloc p q addr size flags fd a valid small fixed e =
    let m = wmap-Mapped kalloc p q addr size flags fd a e in
    let (low, fits, clear) =
      place-Clear addr size flags p.mmaps a small valid.region fixed m.placed in
    (
      subst IsValid (sym m.mmaps) (record {
        from = (low, valid.from);
        region = (fits, valid.region);
        disjoint = (clear, valid.disjoint);
      }),
      m.file,
      m.mmaps,
    )

-- Without MAP_FIXED the address is the start of a page at 0x60000000 or above, and the mapping ends
-- at 0x80000000 at the latest.
pub wmap_chosen :
    (kalloc : Bool) (p q : Proc) (addr size flags fd a : ℕ)
    → IsValid p.mmaps
    → size < 2 ^ 31
    → has flags map_fixed ≡ false
    → wmap kalloc p addr size flags fd ≡ done (q, some a)
    → (map_start ≤ a) × (a % 4096 ≡ 0) × (a + size ≤ map_end)
wmap_chosen kalloc p q addr size flags fd a valid small chosen e =
    let m = wmap-Mapped kalloc p q addr size flags fd a e in
    let (fits, found) = place-chosen addr size flags p.mmaps a small valid.region chosen m.placed in
    (found.low, found.aligned, fits)
