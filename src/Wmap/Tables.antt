-- ===== src/Wmap/Tables.antt =====
-- `sys_wmap` of p4/xv6-public/sysproc.c for a private mapping, whose pages' entries it writes to.
use cs537_group_projects.Base.{ℕ, zero, suc, ◌+◌, ◌≡◌, some}
use cs537_group_projects.Wmap.State.{u32, walkpgdir, page_size, PageDir}

-- Each of the pages from an address on has a page table.
abbrev pub HasTables : PageDir → ℕ → ℕ → Type 0
HasTables pgdir zero va = Unit
HasTables pgdir (suc n) va =
    ((pte : ℕ) × (walkpgdir pgdir va ≡ some pte)) × HasTables pgdir n (u32 (va + page_size))
