-- ===== src/Wmap/LifeTests.antt =====
-- Tests of the mappings of a process that forks and exits, and the examples of what is proved.
use cs537_group_projects.Base.{
  ◌≡◌, refl, inl, inr, Option, none, some, false, List, [], ◌∷◌, arith, if◌then◌else◌, ◌==◌,
}
use cs537_group_projects.Wmap.State.{
  Outcome, done, Entry, PageDir, Proc, Effect, freed, freed_entry, wrote_on, has,
}
use cs537_group_projects.Wmap.Exit.{
  exit_mappings, Ends, AllShared, SomePrivate, exit_mappings-Ends, exit_mappings-never,
}
use cs537_group_projects.Wmap.Fork.{Child, copy_mappings, SomeUnmapped, copy_mappings-private}

-- Two pages of a file, shared, and a private page behind them.
abbrev shared_entry : Entry
shared_entry = record {
  addr = 0x60000000;
  length = 8192;
  flags = 10;
  rc = 1;
  mapping_process = 5;
  n_loaded_pages = 0;
  file = some 0;
}

abbrev private_entry : Entry
private_entry = record shared_entry { addr = 0x60002000; length = 4096; flags = 9 }

-- The first page of the shared mapping is present and writable.
abbrev table : PageDir
table d = if d == 384 then some (λ t. if t == 0 then 20483 else 0) else none

abbrev process : List Entry → Proc
process mes = record {
  pid = 5;
  mmaps = mes;
  pgdir = table;
  ofile = [];
  killed = false;
  refs = 2 ∷ [];
  log = [];
}

loop_log : Outcome (Option Proc) → List Effect
loop_log (done (some p)) = p.log
loop_log other = []

-- `exit` writes the page and gives it back.
one_shared :
    loop_log (exit_mappings 1 (process (shared_entry ∷ [])))
    ≡ wrote_on 0 0x60000000 ∷ freed 20480 ∷ freed_entry 0x60000000 ∷ []
unfolding exit_mappings loop_log
one_shared = refl

shared_only : AllShared (shared_entry ∷ [])
unfolding has
shared_only = ((refl, refl), tt)

private_behind : SomePrivate (shared_entry ∷ private_entry ∷ [])
unfolding has
private_behind = inr (inl refl)

exit_mappings-Ends_example : Ends (exit_mappings 1 (process (shared_entry ∷ [])))
exit_mappings-Ends_example =
    exit_mappings-Ends 1 (process (shared_entry ∷ [])) shared_only (omega arith)

exit_mappings-never_example :
    ¬ (exit_mappings 7 (process (shared_entry ∷ private_entry ∷ [])) ≡ done (some (process [])))
exit_mappings-never_example =
    exit_mappings-never 7 (process (shared_entry ∷ private_entry ∷ [])) (process []) private_behind

abbrev child : Child
child = record { mmaps = []; pgdir = λ d. none }

unmapped : SomeUnmapped child.pgdir (shared_entry ∷ private_entry ∷ [])
unfolding has
unmapped = inr (inl (refl, omega arith, refl))

copy_mappings-private_example : copy_mappings 3 (shared_entry ∷ private_entry ∷ []) child ≡ none
copy_mappings-private_example =
    copy_mappings-private 3 (shared_entry ∷ private_entry ∷ []) child unmapped
