-- ===== src/Wmap/Fault.antt =====
-- The page fault of p4/xv6-public/trap.c (`T_PGFLT`), with `mappages` and the allocating `walkpgdir`
-- of vm.c for one page. What `kalloc` gives for the page (`mem`) and for a table of the second level
-- (`table`), and what `fileread` gives at an offset of a file (`read`: none below 0, else the count and
-- the bytes), are arguments.
pub mod Flags
pub mod Loaded
pub mod Killed
use Prim.Native.Nat.{bit_or}
use cs537_group_projects.Base.{
  ℕ, ◌+◌, ◌-◌, ◌*◌, ◌/◌, ◌%◌, ◌^◌, List, [], ◌∷◌, ◌++◌, Option, none, some, Bool, true, false, ◌&&◌,
  ◌==◌, ltb, leb, if◌then◌else◌,
}
use cs537_group_projects.Wmap.State.{
  Outcome, done, panic, ◌>>=◌, u32, page_size, page_round_down, map_anonymous, has, Entry, PageDir,
  pdx, walkpgdir, set_pte, pte_p, pte_w, Proc, freed,
}

abbrev pub pte_u : ℕ
pte_u = 4

-- `walkpgdir` with `alloc` 1: a missing table is made, with every entry 0.
unfoldable pub walk_alloc : Bool → PageDir → ℕ → Option PageDir
walk_alloc table pgdir va = elim (pgdir (pdx va)) [
  | some entries ↦ some pgdir
  | none ↦ if table then some (λ d. if d == pdx va then some (λ t. 0) else pgdir d) else none
]

-- `mappages` for the page at `va`: `none` is -1.
unfoldable pub mappages : Bool → PageDir → ℕ → ℕ → ℕ → Outcome (Option PageDir)
mappages table pgdir va pa perm = elim (walk_alloc table pgdir va) [
  | none ↦ done none
  | some walked ↦ elim (walkpgdir walked va) [
    | none ↦ done none
    | some pte ↦
        if has pte pte_p
        then panic
        else done (some (set_pte walked va (bit_or (bit_or pa perm) pte_p)))
  ]
]

-- The first mapping that has the address, with those before and behind it.
abbrev pub covers : ℕ → Entry → Bool
covers va me = leb me.addr va && ltb va (u32 (me.addr + me.length))

unfoldable pub find_covering : ℕ → List Entry → Option (List Entry × Entry × List Entry)
find_covering va [] = none
find_covering va (me ∷ mes) =
    if covers va me then some ([], me, mes) else elim (find_covering va mes) [
      | none ↦ none
      | some (front, found, back) ↦ some (me ∷ front, found, back)
    ]

-- The offset in the file of the page with the address.
abbrev pub file_offset : ℕ → Entry → ℕ
file_offset va me = u32 (u32 (va + 2 ^ 32 - me.addr) + 2 ^ 32 - va % page_size)

-- The bytes of the new page; `none` if `fileread` fails.
unfoldable pub page_bytes : (ℕ → ℕ → Option (ℕ × (ℕ → ℕ))) → ℕ → Entry → Option (ℕ → ℕ)
page_bytes read va me = elim me.file [
  | none ↦ some (λ i. 0)
  | some f ↦
      if has me.flags map_anonymous then some (λ i. 0) else elim (read f (file_offset va me)) [
        | none ↦ none
        | some (n, bytes) ↦ some (λ i. if ltb i n then bytes i else 0)
      ]
]

abbrev pub kill_process : Proc → Proc
kill_process p = record p { killed = true }

-- The process afterwards, and the page that is mapped, with its bytes.
abbrev pub Faulted : Type 0
Faulted = Proc × Option (ℕ × (ℕ → ℕ))

-- What follows `mappages`.
unfoldable pub count_page :
    ℕ → (ℕ → ℕ) → Proc → List Entry → Entry → List Entry → Option PageDir → Outcome Faulted
count_page pa bytes p front me back none =
    done (kill_process (record p { log = p.log ++ (freed pa ∷ []) }), none)
count_page pa bytes p front me back (some pgdir) = done (
  record p {
    pgdir = pgdir;
    mmaps = front ++ record me { n_loaded_pages = me.n_loaded_pages + 1 } ∷ back;
  },
  some (pa, bytes),
)

-- The entry's fault, from `kalloc` on.
unfoldable pub load_page :
    (ℕ → ℕ → Option (ℕ × (ℕ → ℕ)))
    → Bool
    → ℕ
    → ℕ
    → Proc
    → List Entry
    → Entry
    → List Entry
    → Outcome Faulted
load_page read table pa va p front me back = elim (page_bytes read va me) [
  | none ↦ done (kill_process (record p { log = p.log ++ (freed pa ∷ []) }), none)
  | some bytes ↦
      mappages table p.pgdir (page_round_down va) pa (bit_or pte_w pte_u)
      >>= count_page pa bytes p front me back
]

unfoldable pub page_fault :
    (ℕ → ℕ → Option (ℕ × (ℕ → ℕ))) → Option ℕ → Bool → ℕ → Proc → Outcome Faulted
page_fault read mem table va p = elim (find_covering va p.mmaps) [
  | none ↦ done (kill_process p, none)
  | some (front, me, back) ↦ elim mem [
    | none ↦ done (kill_process p, none)
    | some pa ↦ load_page read table pa va p front me back
  ]
]
