-- ===== src/Wmap/Tests.antt =====
-- Runs of the calls on mappings, and the theorems about them at concrete inputs.
use cs537_group_projects.Base.{
  ℕ, ◌≡◌, refl, List, [], ◌∷◌, ◌++◌, Option, none, some, true, false, arith, inr, ◌⊎◌,
  if◌then◌else◌, ◌==◌,
}
use cs537_group_projects.Wmap.State.{map_fixed, set_pte, done, has, Entry, Proc, PageDir}
use cs537_group_projects.Wmap.Map.{new_entry, wmap, sys_wmap, free_address, search, find_overlap}
use cs537_group_projects.Wmap.Disjoint.{IsValid, wmap-IsValid}
use cs537_group_projects.Wmap.Failure.{wmap_failed}
use cs537_group_projects.Wmap.Unmap.{wunmap}
use cs537_group_projects.Wmap.Unlink.{SplitAt, NoneAt, wunmap_lem}
use cs537_group_projects.Wmap.Remap.{stays, moves, wremap, find_mapping, in_the_way}

-- A shared anonymous mapping of one page and a half.
abbrev scratch : Entry
scratch = record {
  addr = 0x60000000;
  length = 6000;
  flags = 6;
  rc = 1;
  mapping_process = 7;
  n_loaded_pages = 0;
  file = none;
}

-- Every page of the first mapping's 4 MB is present and writable, and no other table exists.
abbrev tables : PageDir
tables d = if d == 384 then some (λ t. 0x5007) else none

abbrev proc : Proc
proc = record {
  pid = 7;
  mmaps = scratch ∷ [];
  pgdir = tables;
  ofile = none ∷ some 1 ∷ [];
  killed = false;
  refs = 1 ∷ 1 ∷ [];
  log = [];
}

proc-IsValid : IsValid proc.mmaps
proc-IsValid = record { from = (omega arith, tt); region = (omega arith, tt); disjoint = (tt, tt) }

-- The next page behind the first mapping.
abbrev mapped : Proc
mapped = record proc { mmaps = new_entry proc 0x60002000 4096 6 none ∷ scratch ∷ [] }

wmap_second : wmap true proc 0 4096 6 0 ≡ done (mapped, some 0x60002000)
unfolding wmap
wmap_second = refl

not_fixed : ¬ (has 6 map_fixed ≡ true)
unfolding has
not_fixed e = let no_way : false ≡ true = e in cc

wmap-IsValid_example :
    IsValid mapped.mmaps
    × (f : Option ℕ) × (mapped.mmaps ≡ new_entry proc 0x60002000 4096 6 f ∷ proc.mmaps)
unfolding wmap
wmap-IsValid_example =
    wmap-IsValid true proc mapped 0 4096 6 0 0x60002000 proc-IsValid (omega arith)
      (λ e. absurd (not_fixed e)) refl

-- File 1 is opened through descriptor 1, and closed again when `kalloc` fails.
wmap_failed_example : ◌≡◌ {A = Proc} proc proc
unfolding sys_wmap
wmap_failed_example =
    wmap_failed false proc proc
      (record { addr = some 0; length = some 4096; flags = some 2; fd = some 1 }) refl

-- A private page in the 4 MB that has a page table.
abbrev private_mapped : Proc
private_mapped = record proc {
  mmaps = new_entry proc 0x60002000 4096 5 none ∷ scratch ∷ [];
  pgdir = set_pte tables 0x60002000 0x5005;
}

abbrev backed : Proc
backed = record proc { mmaps = record scratch { flags = 2; file = some 1 } ∷ []; refs = 1 ∷ 2 ∷ [] }

unmapped : (q : Proc) × (wunmap backed 0x60000000 ≡ done (q, true))
unfolding wunmap
unmapped = (_, refl)

wunmap_lem_example :
    ((true ≡ true)
      × (front : List Entry) × (me : Entry) × (back : List Entry) × SplitAt 0x60000000 backed.mmaps
          front me back
      × (unmapped.0.mmaps ≡ front ++ back))
    ⊎ ((true ≡ false) × NoneAt 0x60000000 backed.mmaps × (unmapped.0 ≡ backed))
wunmap_lem_example = wunmap_lem backed unmapped.0 0x60000000 true unmapped.1

abbrev private_entry : Entry
private_entry = record scratch { flags = 5 }

-- The first mapping, in a process with another behind it at 0x60002000.
abbrev grown : Proc
grown = record mapped {
  mmaps = new_entry proc 0x60002000 4096 6 none ∷ record scratch { length = 8000 } ∷ [];
}

grows_in_place : wremap mapped 0x60000000 6000 8000 0 ≡ stays grown
unfolding wremap find_mapping in_the_way
grows_in_place = refl

grows_elsewhere : wremap mapped 0x60000000 6000 9000 1 ≡ moves 0x60003000
unfolding wremap find_mapping in_the_way has free_address search find_overlap
grows_elsewhere = refl

mapped-IsValid : IsValid mapped.mmaps
mapped-IsValid = record {
  from = (omega arith, (omega arith, tt));
  region = (omega arith, (omega arith, tt));
  disjoint = ((inr (omega arith), tt), (tt, tt));
}
