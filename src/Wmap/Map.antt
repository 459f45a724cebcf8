-- ===== src/Wmap/Map.antt =====
-- `sys_wmap` of p4/xv6-public/sysproc.c.
use mathlib.Core.Option
use cs537_group_projects.Base.{
  ℕ, zero, suc, ◌+◌, ◌/◌, List, [], ◌∷◌, Option, none, some, Bool, true, false, not, ◌&&◌, ltb,
  if◌then◌else◌, get_or, length,
}
use cs537_group_projects.Wmap.State.{
  Outcome, done, null_access, ◌>>=◌, u32, page_size, page_round_up, map_private, map_shared,
  map_anonymous, map_fixed, has, Entry, PageDir, walkpgdir, set_pte, without_w, Proc, filedup,
  close_if,
}

-- What `argint` fetches for each argument; `none` where the stack pointer is out of bounds.
pub record Args : Type 0 where
  pub addr : Option ℕ
  pub length : Option ℕ
  pub flags : Option ℕ
  pub fd : Option ℕ

-- The test of both loops over `mmaps`: does [addr, addr + length) meet the entry?
abbrev pub overlaps : ℕ → ℕ → Entry → Bool
overlaps addr length me = ltb addr (u32 (me.addr + me.length)) && ltb me.addr (u32 (addr + length))

-- The first entry in the way.
unfoldable pub find_overlap : ℕ → ℕ → List Entry → Option Entry
find_overlap addr length [] = none
find_overlap addr length (me ∷ mes) =
    if overlaps addr length me then some me else find_overlap addr length mes

abbrev pub map_start : ℕ
map_start = 0x60000000

abbrev pub map_end : ℕ
map_end = 0x80000000

-- `while (1)`: from `addr`, past each entry in the way. `none` means that the fuel ran out.
unfoldable pub search : ℕ → ℕ → ℕ → List Entry → Option ℕ
unfolding find_overlap
search zero addr length mes = none
search (suc fuel) addr length mes = elim (find_overlap addr length mes) [
  | none ↦ some addr
  | some me ↦
      let next = page_round_up (u32 (me.addr + me.length)) in
      elim (ltb map_end (u32 (next + length))) [
        | true ↦ some next
        | false ↦ search fuel next length mes
      ]
]

-- A round for each entry, and one more.
unfoldable pub free_address : ℕ → List Entry → Option ℕ
unfolding search
free_address size mes = search (length mes + 1) map_start size mes

-- The address of the new mapping, or `none` for the two failures that follow `filedup`.
unfoldable pub place : ℕ → ℕ → ℕ → List Entry → Option ℕ
unfolding free_address has
place addr length flags mes =
    if not (has flags map_fixed)
    then elim (free_address length mes) [
      | none ↦ none
      | some a ↦ if ltb map_end (u32 (a + length)) then none else some a
    ]
    else elim (find_overlap addr length mes) [ none ↦ some addr | some me ↦ none ]

-- The rounds of `for (uint i = 0; i < length; i += PGSIZE)`, for a length up to 2 ^ 32 - PGSIZE.
abbrev pub pages : ℕ → ℕ
pages length = (length + 4095) / 4096

-- `*pte &= ~PTE_W` for each page. The pointer that `walkpgdir` returned is not tested.
unfoldable pub protect : ℕ → ℕ → PageDir → Outcome PageDir
protect zero va pgdir = done pgdir
protect (suc n) va pgdir = elim (walkpgdir pgdir va) [
  | none ↦ null_access
  | some pte ↦ protect n (u32 (va + page_size)) (set_pte pgdir va (without_w pte))
]

abbrev pub new_entry : Proc → ℕ → ℕ → ℕ → Option ℕ → Entry
new_entry p addr length flags f = record {
  addr = addr;
  length = length;
  flags = flags;
  rc = 1;
  mapping_process = p.pid;
  n_loaded_pages = 0;
  file = f;
}

-- The file of the mapping, its count raised; the outer `none` is the failure of the test on `fd`.
unfoldable pub open_file : Proc → ℕ → ℕ → Outcome (Option (Proc × Option ℕ))
unfolding filedup has
open_file p flags fd =
    if has flags map_anonymous then done (some (p, none)) else elim (get_or p.ofile fd none) [
      | none ↦ done none
      | some f ↦ filedup p f >>= λ q. done (some (q, some f))
    ]

-- The entry is made and linked in front.
unfoldable pub add_mapping : Proc → ℕ → ℕ → ℕ → Option ℕ → Outcome (Proc × Option ℕ)
unfolding protect has
add_mapping p addr length flags f =
    let me = new_entry p addr length flags f in
    (if has flags map_private then protect (pages length) addr p.pgdir else done p.pgdir)
    >>= λ pgdir. done (record p { mmaps = me ∷ p.mmaps; pgdir = pgdir }, some addr)

-- `if (f) fileclose(f); return FAILED;`
unfoldable pub close_and_fail : Proc → Option ℕ → Outcome (Proc × Option ℕ)
unfolding close_if
close_and_fail p f = close_if p f >>= λ q. done (q, none)

-- From the choice of the address on.
unfoldable pub map_at : Bool → Proc → Option ℕ → ℕ → ℕ → Option ℕ → Outcome (Proc × Option ℕ)
unfolding close_and_fail add_mapping
map_at kalloc p none length flags f = close_and_fail p f
map_at false p (some a) length flags f = close_and_fail p f
map_at true p (some a) length flags f = add_mapping p a length flags f

-- From the test on `fd` on. `none` is FAILED.
unfoldable pub map_checked : Bool → Proc → ℕ → ℕ → ℕ → ℕ → Outcome (Proc × Option ℕ)
unfolding open_file map_at place
map_checked kalloc p addr length flags fd = open_file p flags fd >>= λ r. elim r [
  | none ↦ done (p, none)
  | some (q, f) ↦ map_at kalloc q (place addr length flags q.mmaps) length flags f
]

-- Private or shared, and not both.
abbrev pub one_kind : ℕ → Bool
one_kind flags = if has flags map_private then not (has flags map_shared) else has flags map_shared

unfoldable pub wmap : Bool → Proc → ℕ → ℕ → ℕ → ℕ → Outcome (Proc × Option ℕ)
unfolding map_checked
wmap kalloc p addr length flags fd =
    if one_kind flags then map_checked kalloc p addr length flags fd else done (p, none)

-- The arguments, in the order in which they are fetched; `fd` is fetched for a file alone.
unfoldable pub fetch : Args → Option (ℕ × ℕ × ℕ × ℕ)
unfolding Option.bind has
fetch a = Option.bind a.length λ length. Option.bind a.flags λ flags. Option.bind a.addr λ addr.
    if has flags map_anonymous
    then some (addr, length, flags, 0)
    else Option.bind a.fd λ fd. some (addr, length, flags, fd)

unfoldable pub sys_wmap : Bool → Proc → Args → Outcome (Proc × Option ℕ)
unfolding fetch wmap
sys_wmap kalloc p args = elim (fetch args) [
  | none ↦ done (p, none)
  | some (addr, length, flags, fd) ↦ wmap kalloc p addr length flags fd
]
