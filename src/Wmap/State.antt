-- ===== src/Wmap/State.antt =====
-- What the calls on mappings read and change: `struct mmap_entry` and `struct proc` of
-- p4/xv6-public/proc.h, the page table (mmu.h, `walkpgdir` of vm.c), and the file table.
-- `kalloc` and `kfree` are outside this part: whether `kalloc` gives a page is an argument, and a
-- page given to `kfree`, as a `filewrite`, is an entry of a log.
use Prim.Native.Nat.{bit_and}
use cs537_group_projects.Base.{
  ℕ, ◌+◌, ◌-◌, ◌*◌, ◌/◌, ◌%◌, ◌^◌, List, Option, none, some, Bool, not, ◌==◌, ◌≡◌, refl,
  if◌then◌else◌, get_or, set,
}

-- The outcome of kernel code. `null_access` reads or writes through a pointer that is 0.
pub data Outcome {ℓ} (A : Type ℓ) : Type ℓ where
  done : A → Outcome A
  null_access panic : Outcome A

infixl 5 ◌>>=◌
abbrev pub ◌>>=◌ {ℓ κ} : {A : Type ℓ} {B : Type κ} → Outcome A → (A → Outcome B) → Outcome B
done a >>= f = f a
null_access >>= f = null_access
panic >>= f = panic

-- Inversion of a bind that is done.
pub >>=-eq-done {ℓ κ} :
    {A : Type ℓ} {B : Type κ} (m : Outcome A) (f : A → Outcome B) {b : B}
    → (m >>= f) ≡ done b
    → (a : A) × (m ≡ done a) × (f a ≡ done b)
>>=-eq-done (done a) f h = (a, refl, h)
>>=-eq-done null_access f h = cc
>>=-eq-done panic f h = cc

abbrev pub u32 : ℕ → ℕ
u32 n = n % 2 ^ 32

abbrev pub page_size : ℕ
page_size = 4096

-- `(sz + PGSIZE - 1) & ~(PGSIZE - 1)` in 32 bits
abbrev pub page_round_up : ℕ → ℕ
page_round_up a = u32 (a + 4095) / 4096 * 4096

abbrev pub page_round_down : ℕ → ℕ
page_round_down a = a / 4096 * 4096

abbrev pub map_private : ℕ
map_private = 1

abbrev pub map_shared : ℕ
map_shared = 2

abbrev pub map_anonymous : ℕ
map_anonymous = 4

abbrev pub map_fixed : ℕ
map_fixed = 8

-- `word & bit` as a condition
unfoldable pub has : ℕ → ℕ → Bool
has word bit = not (bit_and word bit == 0)

-- `struct mmap_entry`, less the link: the entries of a process are a list. A process is named by a
-- number, a file by its index in the file table.
pub record Entry : Type 0 where
  pub addr : ℕ
  pub length : ℕ
  pub flags : ℕ
  pub rc : ℕ
  pub mapping_process : ℕ
  pub n_loaded_pages : ℕ
  pub file : Option ℕ

-- A page table of the second level for each index of the first where one is present.
abbrev pub PageDir : Type 0
PageDir = ℕ → Option (ℕ → ℕ)

abbrev pub pdx : ℕ → ℕ
pdx va = va / 2 ^ 22 % 1024

abbrev pub ptx : ℕ → ℕ
ptx va = va / 2 ^ 12 % 1024

-- `walkpgdir` with `alloc` 0: the entry, if its table is present.
unfoldable pub walkpgdir : PageDir → ℕ → Option ℕ
walkpgdir pgdir va = elim (pgdir (pdx va)) [ none ↦ none | some table ↦ some (table (ptx va)) ]

-- A write to the entry that `walkpgdir` points to.
unfoldable pub set_pte : PageDir → ℕ → ℕ → PageDir
set_pte pgdir va pte d =
    if d == pdx va
    then elim (pgdir d) [
      | none ↦ none
      | some table ↦ some (λ t. if t == ptx va then pte else table t)
    ]
    else pgdir d

abbrev pub pte_p : ℕ
pte_p = 1

abbrev pub pte_w : ℕ
pte_w = 2

-- `pte & ~PTE_W`
abbrev pub without_w : ℕ → ℕ
without_w pte = bit_and pte (2 ^ 32 - 3)

-- `PTE_ADDR`
abbrev pub pte_addr : ℕ → ℕ
pte_addr pte = pte / 4096 * 4096

-- `freed pa`: `kfree` of the page at `pa`; `wrote f off va`: `filewrite` of the page at `va`, at
-- offset `off` of file `f`; `wrote_on f va`: the same at the offset that `f` has; `flushed`: the reload of `cr3`.
pub data Effect : Type 0 where
  freed : ℕ → Effect
  freed_entry : ℕ → Effect
  wrote : ℕ → ℕ → ℕ → Effect
  wrote_on : ℕ → ℕ → Effect
  flushed : Effect

-- The current process and the reference counts of the file table.
pub record Proc : Type 0 where
  pub pid : ℕ
  pub mmaps : List Entry
  pub pgdir : PageDir
  pub ofile : List (Option ℕ)
  pub killed : Bool
  pub refs : List ℕ
  pub log : List Effect

-- `filedup` and `fileclose`
unfoldable pub filedup : Proc → ℕ → Outcome Proc
filedup p f =
    if get_or p.refs f 0 == 0
    then panic
    else done (record p { refs = set p.refs f (get_or p.refs f 0 + 1) })

unfoldable pub fileclose : Proc → ℕ → Outcome Proc
fileclose p f =
    if get_or p.refs f 0 == 0
    then panic
    else done (record p { refs = set p.refs f (get_or p.refs f 0 - 1) })

-- `if (f) fileclose(f)`
unfoldable pub close_if : Proc → Option ℕ → Outcome Proc
unfolding fileclose
close_if p none = done p
close_if p (some f) = fileclose p f
