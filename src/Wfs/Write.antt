-- ===== src/Wfs/Write.antt =====
-- `wfs_write` of p7/wfs.c.
pub mod Direct
pub mod Loop
pub mod Call
use cs537_group_projects.Base.{
  ℕ, zero, suc, ◌+◌, ◌-◌, ◌*◌, ◌/◌, ◌%◌, ◌^◌, List, [], ◌∷◌, ◌++◌, Option, none, some, Bool, true,
  false, not, ◌&&◌, ◌==◌, ltb, leb, if◌then◌else◌,
}
use cs537_group_projects.Wfs.Disk.{Disk, load_long, store_long, copy_bytes}
use cs537_group_projects.Wfs.Bitmap.{allocate_block, flip_bit_in_bitmap}
use cs537_group_projects.Wfs.Format.{Sb, block_size}
use cs537_group_projects.Wfs.Inode.{
  inode_at, ind_block, size_of, set_size, block_of, update_inode_times,
}
use cs537_group_projects.Wfs.Lookup.{Name, find_inode_number_by_path}
use cs537_group_projects.Wfs.Create.{Reply, returns, enoent, enospc}
use cs537_group_projects.Wfs.Read.{min}

-- The variables of the loops, with the image.
pub record Writing : Type 0 where
  pub disk : Disk
  pub size : ℕ
  pub bytes_written : ℕ
  pub block_index : ℕ
  pub block_offset : ℕ

-- A loop goes on to what follows it, or the function returns.
pub data Written : Type 0 where
  goes_on : Writing → Written
  stops : Disk → Reply → Written

abbrev pub extend_size : Disk → ℕ → ℕ → Disk
extend_size disk inode end = if ltb (size_of disk inode) end then set_size disk inode end else disk

-- The returns where no block is left. `timed`: the times are updated after a part was written.
unfoldable pub no_space : Bool → ℕ → ℕ → ℕ → Writing → Disk × Reply
unfolding update_inode_times
no_space timed now inode offset w =
    if ltb 0 w.bytes_written
    then (
      let extended = extend_size w.disk inode (offset + w.bytes_written) in
          if timed then update_inode_times now true extended inode else extended,
      returns w.bytes_written,
    )
    else (update_inode_times now false w.disk inode, enospc)

-- A block for the address at `at`, if it is 0; `none` where no block is left.
unfoldable pub allocate_at : Sb → Disk → ℕ → Option Disk
allocate_at sb disk at =
    if load_long disk at == 0
    then elim (allocate_block disk sb.d_bitmap_ptr sb.num_data_blocks) [
      | none ↦ none
      | some b ↦ some (
          flip_bit_in_bitmap (store_long disk at (sb.d_blocks_ptr + b * block_size)) sb.d_bitmap_ptr
            b)
    ]
    else some disk

-- The bytes for the block whose address is at `at`, and the counters, of which `block_index` goes
-- up by `step`.
unfoldable pub put_bytes : (ℕ → ℕ) → ℕ → ℕ → Writing → Writing
put_bytes buf step at w =
    let bytes_to_write = min w.size (block_size - w.block_offset) in
    record {
      disk =
          copy_bytes w.disk (load_long w.disk at + w.block_offset) bytes_to_write buf
            w.bytes_written;
      size = w.size - bytes_to_write;
      bytes_written = w.bytes_written + bytes_to_write;
      block_index = w.block_index + step;
      block_offset = 0;
    }

-- The loop over the direct blocks. `block_index` goes up in each round, so `ind_block` rounds are
-- enough.
unfoldable pub write_direct : ℕ → Sb → ℕ → ℕ → ℕ → (ℕ → ℕ) → Writing → Written
unfolding allocate_at put_bytes no_space
write_direct zero sb inode now offset buf w = goes_on w
write_direct (suc n) sb inode now offset buf w =
    if ltb 0 w.size && ltb w.block_index ind_block
    then elim (allocate_at sb w.disk (inode + 56 + w.block_index * 8)) [
      | none ↦ let (d, r) = no_space true now inode offset w in stops d r
      | some disk ↦
          write_direct n sb inode now offset buf
            (put_bytes buf 1 (inode + 56 + w.block_index * 8) (record w { disk = disk }))
    ]
    else goes_on w

-- The loop over the indirect block, whose address is at `inode + 56 + ind_block * 8`. Both the body
-- and the head of the loop add 1 to `block_index`. `block_size / 8` rounds are enough.
unfoldable pub write_indirect : ℕ → Sb → ℕ → ℕ → ℕ → (ℕ → ℕ) → Writing → Written
unfolding allocate_at put_bytes no_space
write_indirect zero sb inode now offset buf w = goes_on w
write_indirect (suc n) sb inode now offset buf w =
    let at = block_of w.disk inode ind_block + w.block_index * 8 in
    if ltb 0 w.size && ltb w.block_index (block_size / 8)
    then elim (allocate_at sb w.disk at) [
      | none ↦ let (d, r) = no_space false now inode offset w in stops d r
      | some disk ↦
          write_indirect n sb inode now offset buf (put_bytes buf 2 at (record w { disk = disk }))
    ]
    else goes_on w

-- The test on the bytes left, the block of addresses, and the loop over it.
unfoldable pub write_behind : Sb → ℕ → ℕ → ℕ → (ℕ → ℕ) → Writing → Written
unfolding write_indirect
write_behind sb inode now offset buf w =
    if ltb 0 w.size
    then elim (allocate_at sb w.disk (inode + 56 + ind_block * 8)) [
      | none ↦ let (d, r) = no_space true now inode offset w in stops d r
      | some disk ↦
          write_indirect 64 sb inode now offset buf
            (record w { disk = disk; block_index = w.block_index - ind_block })
    ]
    else goes_on w

-- The end of the function.
unfoldable pub finish : ℕ → ℕ → ℕ → Writing → Disk × Reply
unfolding update_inode_times
finish now inode offset w =
    let done : Disk × Reply = (
      update_inode_times now true (extend_size w.disk inode (offset + w.bytes_written)) inode,
      returns w.bytes_written,
    ) in
    if ltb 0 w.size then (if ltb 0 w.bytes_written then done else (w.disk, enospc)) else done

abbrev pub and_then : Written → (Writing → Disk × Reply) → Disk × Reply
and_then (goes_on w) k = k w
and_then (stops d r) k = (d, r)

abbrev pub and_write : Written → (Writing → Written) → Written
and_write (goes_on w) k = k w
and_write (stops d r) k = stops d r

unfoldable pub write_inode_at : Sb → ℕ → ℕ → (ℕ → ℕ) → ℕ → ℕ → Disk → Disk × Reply
unfolding write_direct write_behind finish
write_inode_at sb inode now buf size offset disk =
    let start : Writing = record {
      disk = disk;
      size = size;
      bytes_written = 0;
      block_index = offset / block_size;
      block_offset = offset % block_size;
    } in
    and_then
      (and_write (write_direct ind_block sb inode now offset buf start)
        (write_behind sb inode now offset buf))
      (finish now inode offset)

unfoldable pub wfs_write : Sb → List Name → ℕ → (ℕ → ℕ) → ℕ → ℕ → Disk → Disk × Reply
unfolding find_inode_number_by_path write_inode_at
wfs_write sb path now buf size offset disk = elim (find_inode_number_by_path disk sb path).1 [
  | none ↦ (disk, enoent)
  | some num ↦ write_inode_at sb (inode_at sb num) now buf size offset disk
]
