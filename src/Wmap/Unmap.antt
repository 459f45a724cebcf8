-- ===== src/Wmap/Unmap.antt =====
-- `sys_wunmap` of p4/xv6-public/sysproc.c.
use cs537_group_projects.Base.{
  ℕ, zero, suc, ◌+◌, List, [], ◌∷◌, ◌++◌, Option, none, some, Bool, true, false, not, ◌==◌,
  if◌then◌else◌,
}
use cs537_group_projects.Wmap.State.{
  Outcome, done, null_access, ◌>>=◌, u32, page_size, map_private, map_shared, has, Entry, PageDir,
  walkpgdir, set_pte, pte_p, pte_w, pte_addr, without_w, Proc, Effect, freed, freed_entry, wrote,
  flushed, close_if,
}
use cs537_group_projects.Wmap.Map.{pages}

-- One page of MAP_PRIVATE: an entry that is present is cleared.
unfoldable pub clear_page : ℕ → PageDir → PageDir
unfolding walkpgdir set_pte has
clear_page va pgdir = elim (walkpgdir pgdir va) [
  | none ↦ pgdir
  | some pte ↦ if has pte pte_p then set_pte pgdir va 0 else pgdir
]

-- The rounds left, and the offset `i`.
unfoldable pub clear_pages : ℕ → ℕ → ℕ → PageDir → PageDir
unfolding clear_page
clear_pages zero i addr pgdir = pgdir
clear_pages (suc n) i addr pgdir =
    clear_pages n (i + page_size) addr (clear_page (u32 (addr + i)) pgdir)

-- One page of MAP_SHARED, at offset `i`. A page that is present is given back, after it is written
-- to the file if it is writable; the file is not tested before `me->file->off` is set.
unfoldable pub release_page :
    Option ℕ → ℕ → ℕ → PageDir → List Effect → Outcome (PageDir × List Effect)
unfolding walkpgdir set_pte has
release_page file i va pgdir log = elim (walkpgdir pgdir va) [
  | none ↦ done (pgdir, log)
  | some pte ↦
      if not (has pte pte_p)
      then done (pgdir, log)
      else (if has pte pte_w
          then elim file [
            | none ↦ null_access
            | some f ↦
                done (
                  set_pte pgdir va 0,
                  log ++ (wrote f i va ∷ freed (pte_addr (without_w pte)) ∷ []),
                )
          ]
          else done (set_pte pgdir va 0, log ++ (freed (pte_addr pte) ∷ [])))
]

unfoldable pub release_pages :
    ℕ → Option ℕ → ℕ → ℕ → PageDir → List Effect → Outcome (PageDir × List Effect)
unfolding release_page
release_pages zero file i addr pgdir log = done (pgdir, log)
release_pages (suc n) file i addr pgdir log =
    release_page file i (u32 (addr + i)) pgdir log >>= λ r.
    release_pages n file (i + page_size) addr r.0 r.1

-- All pages of MAP_SHARED, and the file.
unfoldable pub release_mapping : Proc → Entry → Outcome Proc
unfolding release_pages close_if
release_mapping p me = release_pages (pages me.length) me.file 0 me.addr p.pgdir p.log >>= λ r.
    close_if (record p { pgdir = r.0; log = r.1 }) me.file

-- What is done for the entry before it is unlinked.
unfoldable pub drop_pages : Proc → Entry → Outcome Proc
unfolding clear_pages release_mapping has
drop_pages p me =
    if has me.flags map_private
    then done (record p { pgdir = clear_pages (pages me.length) 0 me.addr p.pgdir })
    else (if has me.flags map_shared then release_mapping p me else done p)

-- The entry at an address, the entries before it and those behind it.
unfoldable pub split_at : ℕ → List Entry → Option (List Entry × Entry × List Entry)
split_at addr [] = none
split_at addr (me ∷ mes) =
    if me.addr == addr then some ([], me, mes) else elim (split_at addr mes) [
      | none ↦ none
      | some (front, found, back) ↦ some (me ∷ front, found, back)
    ]

-- The entry is taken out of the list and freed, and the TLB flushed.
abbrev pub unlink : List Entry → Entry → List Entry → Proc → Outcome (Proc × Bool)
unlink front me back p =
    done (
      record p { mmaps = front ++ back; log = p.log ++ (freed_entry me.addr ∷ flushed ∷ []) },
      true,
    )

-- `true` is SUCCESS.
unfoldable pub wunmap : Proc → ℕ → Outcome (Proc × Bool)
unfolding split_at drop_pages
wunmap p addr = elim (split_at addr p.mmaps) [
  | none ↦ done (p, false)
  | some (front, me, back) ↦ drop_pages p me >>= unlink front me back
]

unfoldable pub sys_wunmap : Proc → Option ℕ → Outcome (Proc × Bool)
unfolding wunmap
sys_wunmap p none = done (p, false)
sys_wunmap p (some addr) = wunmap p addr
