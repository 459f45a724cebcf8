-- ===== src/Wfs/Bitmap.antt =====
-- The bitmaps of p7/wfs.c: `allocate_block` and `flip_bit_in_bitmap`.
pub mod Search
pub mod Flip
use Prim.Native.Nat.{bit_xor, bit_and}
use cs537_group_projects.Base.{
  ℕ, zero, suc, ◌+◌, ◌-◌, ◌*◌, ◌/◌, ◌%◌, ◌^◌, Option, none, some, Bool, true, false, ◌==◌,
  if◌then◌else◌,
}
use cs537_group_projects.Wfs.Disk.{Disk, load_int, store_int}

-- `~x` of an `int`
abbrev pub complement : ℕ → ℕ
complement x = 2 ^ 32 - 1 - x

-- The loop over `col`, with the rounds left.
unfoldable pub find_col : ℕ → ℕ → ℕ → Option ℕ
find_col zero col old_bit = none
find_col (suc n) col old_bit =
    let rest = find_col n (col + 1) old_bit in
    if bit_and (2 ^ col) (complement old_bit) == 0 then rest else some col

-- The loop over `row`, with the rounds left.
unfoldable pub find_row : ℕ → ℕ → Disk → ℕ → Option ℕ
find_row zero row disk addr = none
find_row (suc n) row disk addr =
    let old_bit = load_int disk (addr + row * 4) in
    let next = find_row n (row + 1) disk addr in
    if complement old_bit == 0
    then next
    else elim (find_col 32 0 old_bit) [ none ↦ next | some col ↦ some (row * 32 + col) ]

-- `none` is -1.
unfoldable pub allocate_block : Disk → ℕ → ℕ → Option ℕ
allocate_block disk addr size = find_row (size / 32) 0 disk addr

unfoldable pub flip_bit_in_bitmap : Disk → ℕ → ℕ → Disk
flip_bit_in_bitmap disk offset block_num =
    let at = offset + block_num / 32 * 4 in
    store_int disk at (bit_xor (load_int disk at) (2 ^ (block_num % 32)))
