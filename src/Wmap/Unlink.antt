-- ===== src/Wmap/Unlink.antt =====
-- `sys_wunmap` takes one mapping out of the list.
use cs537_group_projects.Base.{
  ℕ, zero, suc, ◌≡◌, ◌≢◌, refl, List, [], ◌∷◌, ◌++◌, none, some, Bool, true, false, arith,
  Option-cases, Bool-cases, inl, inr, ◌⊎◌, ap, ◌==◌, ◌<◌, ◌+◌, suc,
}
use cs537_group_projects.Wmap.State.{
  done, null_access, walkpgdir, u32, pte_p, pte_w, PageDir, >>=-eq-done, Entry, Proc, Effect,
  close_if, fileclose, has, map_private, map_shared,
}
use cs537_group_projects.Wmap.Map.{pages}
use cs537_group_projects.Wmap.Unmap.{
  split_at, drop_pages, release_page, release_mapping, release_pages, unlink, wunmap,
}

-- No mapping of the list is at the address.
abbrev pub NoneAt : ℕ → List Entry → Type 0
NoneAt addr [] = Unit
NoneAt addr (me ∷ mes) = (me.addr ≢ addr) × NoneAt addr mes

-- The list is cut at its first mapping at the address.
pub record SplitAt (addr : ℕ) (mes front : List Entry) (me : Entry) (back : List Entry)
    : Type 0 where
  pub whole : mes ≡ front ++ (me ∷ back)
  pub here : me.addr ≡ addr
  pub first : NoneAt addr front

-- Either there is no mapping at the address, or the cut is found.
abbrev Cut : ℕ → List Entry → Type 0
Cut addr mes =
    ((split_at addr mes ≡ none) × NoneAt addr mes)
    ⊎ ((front : List Entry) × (me : Entry) × (back : List Entry) × (split_at addr mes
          ≡ some (front, me, back))
        × SplitAt addr mes front me back)

split_at-Cut : (addr : ℕ) (mes : List Entry) → Cut addr mes
unfolding split_at
split_at-Cut addr [] = inl (refl, tt)
split_at-Cut addr (m ∷ mes) = elim (Bool-cases (m.addr == addr)) [
  | inl same ↦ inr ([], m, mes, rw same, record { whole = refl; here = ground arith; first = tt })
  | inr other ↦ elim (split_at-Cut addr mes) [
    | inl (e, h) ↦ inl (rw (other, e), (ground arith, h))
    | inr (front, me, back, e, cut) ↦ inr (
      m ∷ front,
      me,
      back,
      rw (other, e),
      record {
        whole = ap (λ l. m ∷ l) cut.whole;
        here = cut.here;
        first = (ground arith, cut.first);
      },
    )
  ]
]

release_mapping-mmaps :
    (p q : Proc) (me : Entry) → release_mapping p me ≡ done q → q.mmaps ≡ p.mmaps
unfolding release_mapping close_if fileclose
release_mapping-mmaps p q me e = elim (Option-cases me.file) [
  | inl anonymous ↦ ground arith
  | inr (f, backed) ↦ ground arith
]

pub drop_pages-mmaps : (p q : Proc) (me : Entry) → drop_pages p me ≡ done q → q.mmaps ≡ p.mmaps
unfolding drop_pages
drop_pages-mmaps p q me e = elim (Bool-cases (has me.flags map_private)) [
  | inl private ↦ ground arith
  | inr other ↦ elim (Bool-cases (has me.flags map_shared)) [
    | inl shared ↦ release_mapping-mmaps p q me (ground arith)
    | inr neither ↦ ground arith
  ]
]

-- A call that succeeds takes the first mapping at the address out of the list and leaves every
-- other one where it was; a call fails only where no mapping has the address, and then changes
-- nothing.
pub wunmap_lem :
    (p q : Proc) (addr : ℕ) (success : Bool)
    → wunmap p addr ≡ done (q, success)
    → ((success ≡ true)
        × (front : List Entry) × (me : Entry) × (back : List Entry) × SplitAt addr p.mmaps front me
            back
        × (q.mmaps ≡ front ++ back))
      ⊎ ((success ≡ false) × NoneAt addr p.mmaps × (q ≡ p))
unfolding wunmap
wunmap_lem p q addr success e = elim (split_at-Cut addr p.mmaps) [
  | inl (missing, h) ↦ inr (ground arith, h, ground arith)
  | inr (front, me, back, found, cut) ↦
      let (r, dropped, rest) =
        >>=-eq-done (drop_pages p me) (unlink front me back) {b = (q, success)} (ground arith) in
      let kept = drop_pages-mmaps p r me dropped in
      inl (ground arith, front, me, back, cut, ground arith)
]

split_at-head : (me : Entry) (mes : List Entry) → split_at me.addr (me ∷ mes) ≡ some ([], me, mes)
unfolding split_at
split_at-head me mes = ground arith

release_page-null :
    (i va pte : ℕ) (pgdir : PageDir) (log : List Effect)
    → walkpgdir pgdir va ≡ some pte
    → has pte pte_p ≡ true
    → has pte pte_w ≡ true
    → release_page none i va pgdir log ≡ null_access
unfolding release_page
release_page-null i va pte pgdir log found present writable = ground arith

release_pages-null :
    (n i addr pte : ℕ) (pgdir : PageDir) (log : List Effect)
    → 0 < n
    → walkpgdir pgdir (u32 (addr + i)) ≡ some pte
    → has pte pte_p ≡ true
    → has pte pte_w ≡ true
    → release_pages n none i addr pgdir log ≡ null_access
unfolding release_pages
release_pages-null zero i addr pte pgdir log pos found present writable = absurd (omega arith)
release_pages-null (suc n) i addr pte pgdir log pos found present writable =
    rw (release_page-null i (u32 (addr + i)) pte pgdir log found present writable)

-- A shared anonymous mapping whose first page is writable has no file: `sys_wunmap` sets the offset
-- of a file through `NULL`.
pub wunmap_null_access :
    (p : Proc) (me : Entry) (mes : List Entry) (pte : ℕ)
    → p.mmaps ≡ me ∷ mes
    → has me.flags map_private ≡ false
    → has me.flags map_shared ≡ true
    → me.file ≡ none
    → 0 < me.length
    → walkpgdir p.pgdir (u32 (me.addr + 0)) ≡ some pte
    → has pte pte_p ≡ true
    → has pte pte_w ≡ true
    → wunmap p me.addr ≡ null_access
unfolding wunmap
wunmap_null_access p me mes pte front private shared file pos found present writable =
    let pages_fault =
      release_pages-null (pages me.length) 0 me.addr pte p.pgdir p.log (omega arith) found present
        writable in
    ground (arith, split_at-head me mes, pages_fault)
