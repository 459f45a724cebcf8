-- ===== src/Wmap/Unload.antt =====
-- `sys_wunmap` and the page table: the pages of the mapping go, and no others.
use cs537_group_projects.Base.{
  ℕ, ◌/◌, ◌^◌, ◌<◌, ◌≡◌, none, some, Bool, true, false, arith, if◌then◌else◌, ◌==◌, ◌&&◌,
}
use cs537_group_projects.Wmap.State.{PageDir, walkpgdir, set_pte, has, pte_p, pdx, ptx}

-- Is a page mapped at the address?
unfoldable pub present : PageDir → ℕ → Bool
unfolding has
present pgdir va = elim (walkpgdir pgdir va) [ none ↦ false | some pte ↦ has pte pte_p ]

-- Two addresses lie in one page where both of their indices agree.
abbrev pub same_page : ℕ → ℕ → Bool
same_page va wa = pdx va == pdx wa && ptx va == ptx wa

pub same_page-div :
    (va wa : ℕ) → va < 2 ^ 32 → wa < 2 ^ 32 → same_page va wa ≡ true → va / 4096 ≡ wa / 4096
same_page-div va wa hv hw e = ground arith

pub walkpgdir-set_pte :
    (pgdir : PageDir) (va wa pte : ℕ)
    → walkpgdir (set_pte pgdir va pte) wa ≡ (
        if same_page va wa
        then elim (walkpgdir pgdir wa) [ none ↦ none | some old ↦ some pte ]
        else walkpgdir pgdir wa)
unfolding walkpgdir set_pte
walkpgdir-set_pte pgdir va wa pte = ground arith
