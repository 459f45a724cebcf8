-- ===== src/Wmap/FaultTests.antt =====
-- Page faults of a process with one mapping of a file.
use cs537_group_projects.Base.{ℕ, ◌+◌, ◌≡◌, refl, [], ◌∷◌, none, some, true, false}
use cs537_group_projects.Wmap.State.{Entry, Proc, done, has}
use cs537_group_projects.Wmap.Fault.{page_fault, find_covering, kill_process}
use cs537_group_projects.Wmap.Fault.Loaded.{expected}
use cs537_group_projects.Wmap.Fault.Killed.{Killed, page_fault-kills}

abbrev backed : Entry
backed = record {
  addr = 0x60000000;
  length = 6000;
  flags = 2;
  rc = 1;
  mapping_process = 7;
  n_loaded_pages = 0;
  file = some 1;
}

abbrev unloaded : Proc
unloaded = record {
  pid = 7;
  mmaps = backed ∷ [];
  pgdir = λ d. none;
  ofile = none ∷ some 1 ∷ [];
  killed = false;
  refs = 1 ∷ 2 ∷ [];
  log = [];
}

-- Pages whose bytes are their offsets in the file.
abbrev counting : ℕ → ℕ → ℕ × (ℕ → ℕ)
counting f offset = (4096, λ i. offset + i)

-- The eleventh byte of the second page.
loaded_byte : expected counting 0x60001010 backed 10 ≡ 4106
unfolding has
loaded_byte = refl

outside :
    page_fault (λ f offset. none) (some 0x7000) true 0x60003000 unloaded
    ≡ done (kill_process unloaded, none)
unfolding page_fault find_covering
outside = refl

page_fault-kills_example : Killed unloaded (kill_process unloaded) 0x60003000 (some 0x7000)
page_fault-kills_example =
    page_fault-kills (λ f offset. none) (some 0x7000) true 0x60003000 unloaded
      (kill_process unloaded) outside
