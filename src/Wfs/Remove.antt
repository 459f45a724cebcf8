-- ===== src/Wfs/Remove.antt =====
-- `wfs_unlink` and `wfs_rmdir` of p7/wfs.c.
pub mod Partly
use cs537_group_projects.Base.{
  is_positive, ℕ, zero, suc, ◌+◌, ◌-◌, ◌*◌, ◌/◌, ◌%◌, ◌^◌, List, [], ◌∷◌, ◌++◌, Option, none, some,
  Bool, true, false, not, ◌&&◌, ◌==◌, ltb, leb, if◌then◌else◌,
}
use cs537_group_projects.Wfs.Disk.{Disk, load_int, clear_bytes}
use cs537_group_projects.Wfs.Bitmap.{flip_bit_in_bitmap}
use cs537_group_projects.Wfs.Format.{Sb, block_size}
use cs537_group_projects.Wfs.Inode.{
  inode_at, ind_block, size_of, block_of, nlinks_of, set_nlinks, sub_one, is_natural, dentry_at,
  dentry_num, dentry_size, update_inode_times,
}
use cs537_group_projects.Wfs.Lookup.{
  Name, Dentry, hit, unused, missing, find_dentry, find_inode_number_by_path,
}
use cs537_group_projects.Wfs.Create.{
  Reply, returns, eexist, enoent, enospc, enotempty, stray, last_name,
}

-- The entry that `find_dentry` found in a block is cleared; `none` where it found none.
unfoldable pub clear_entry : Disk → ℕ → Name → Option Disk
clear_entry disk block name = elim (find_dentry disk block name) [
  | hit num j ↦
      if is_natural num then some (clear_bytes disk (dentry_at block j) dentry_size) else none
  | unused ↦ none
  | missing ↦ none
]

-- The loop over the parent's blocks, with the rounds left.
unfoldable pub clear_entries : ℕ → ℕ → Disk → ℕ → Name → Disk
unfolding clear_entry
clear_entries zero i disk parent name = disk
clear_entries (suc n) i disk parent name =
    let rest = clear_entries n (i + 1) disk parent name in
    if block_of disk parent i == 0
    then rest
    else elim (clear_entry disk (block_of disk parent i) name) [
      | none ↦ rest
      | some cleared ↦ cleared
    ]

-- The entry of the parent, its count of links and its times.
unfoldable pub leave_parent : ℕ → Name → Disk → ℕ → Disk
unfolding clear_entries update_inode_times
leave_parent now name disk parent =
    let cleared = clear_entries 7 0 disk parent name in
    update_inode_times now true (set_nlinks cleared parent (sub_one (nlinks_of cleared parent)))
      parent

-- `data_block_addr` of the loop over the blocks of a file, an `int`; 0 for a block that is passed over.
unfoldable pub data_block_addr : Disk → ℕ → ℕ → ℕ
data_block_addr disk inode i =
    if ltb i ind_block
    then block_of disk inode i % 2 ^ 32
    else (if block_of disk inode ind_block == 0
        then 0
        else load_int disk (block_of disk inode ind_block + (i - ind_block) * 4))

-- The bit of a data block and its bytes; `none` for an address below the data blocks.
unfoldable pub free_block : Sb → Disk → ℕ → Option Disk
free_block sb disk addr =
    if ltb addr sb.d_blocks_ptr
    then none
    else some (
        clear_bytes
          (flip_bit_in_bitmap disk sb.d_bitmap_ptr ((addr - sb.d_blocks_ptr) / block_size)) addr
          block_size)

-- The loop over `i`, with the rounds left.
unfoldable pub free_blocks : ℕ → ℕ → Sb → ℕ → Disk → Option Disk
unfolding data_block_addr free_block
free_blocks zero i sb inode disk = some disk
free_blocks (suc n) i sb inode disk =
    let rest = free_blocks n (i + 1) sb inode disk in
    if data_block_addr disk inode i == 0
    then rest
    else elim (free_block sb disk (data_block_addr disk inode i)) [
      | none ↦ none
      | some freed ↦ free_blocks n (i + 1) sb inode freed
    ]

-- The bit of the inode and its bytes.
abbrev pub free_inode : Sb → ℕ → Disk → Disk
free_inode sb num disk =
    clear_bytes (flip_bit_in_bitmap disk sb.i_bitmap_ptr num) (inode_at sb num) block_size

unfoldable pub wfs_unlink : Sb → List Name → ℕ → Disk → Disk × Reply
unfolding find_inode_number_by_path leave_parent free_blocks
wfs_unlink sb path now disk =
    let (parent_num, inode_num) = find_inode_number_by_path disk sb path in
    elim inode_num [
      | none ↦ (disk, eexist)
      | some num ↦
          let left = leave_parent now (last_name path) disk (inode_at sb parent_num) in
          let inode = inode_at sb num in
          let fewer = set_nlinks left inode (sub_one (nlinks_of left inode)) in
          if is_positive (nlinks_of fewer inode)
          then (fewer, returns 0)
          else elim (free_blocks (size_of fewer inode / block_size + 1) 0 sb inode fewer) [
            | none ↦ (fewer, stray)
            | some freed ↦ (free_inode sb num freed, returns 0)
          ]
    ]

-- The loop over `j`: is an entry of the block in use?
unfoldable pub in_use : ℕ → ℕ → Disk → ℕ → Bool
in_use zero j disk block = false
in_use (suc n) j disk block =
    let rest = in_use n (j + 1) disk block in
    if is_positive (dentry_num disk (dentry_at block j)) then true else rest

-- What the loop over the directory's blocks leaves: the directory is not empty, an address below
-- the data blocks, or the image with the blocks freed.
pub data Emptied : Type 0 where
  kept : Disk → Emptied
  strayed : Disk → Emptied
  emptied : Disk → Emptied

unfoldable pub empty_blocks : ℕ → ℕ → Sb → ℕ → Disk → Emptied
unfolding in_use free_block
empty_blocks zero i sb inode disk = emptied disk
empty_blocks (suc n) i sb inode disk =
    let rest = empty_blocks n (i + 1) sb inode disk in
    let block = block_of disk inode i in
    if block == 0
    then rest
    else (if in_use 16 0 disk block then kept disk else elim (free_block sb disk block) [
      | none ↦ strayed disk
      | some freed ↦ empty_blocks n (i + 1) sb inode freed
    ])

unfoldable pub wfs_rmdir : Sb → List Name → ℕ → Disk → Disk × Reply
unfolding find_inode_number_by_path leave_parent empty_blocks
wfs_rmdir sb path now disk =
    let (parent_num, inode_num) = find_inode_number_by_path disk sb path in
    elim inode_num [
      | none ↦ (disk, eexist)
      | some num ↦ elim (empty_blocks 7 0 sb (inode_at sb num) disk) [
        | kept left ↦ (left, enotempty)
        | strayed left ↦ (left, stray)
        | emptied left ↦ (
          free_inode sb num (leave_parent now (last_name path) left (inode_at sb parent_num)),
          returns 0,
        )
      ]
    ]
