-- ===== src/Wfs/Read.antt =====
-- `wfs_read`, `wfs_getattr` and `wfs_readdir` of p7/wfs.c.
pub mod Content
use mathlib.Core.Option
use cs537_group_projects.Base.{
  is_positive, ℕ, zero, suc, ◌+◌, ◌-◌, ◌*◌, ◌/◌, ◌%◌, ◌^◌, List, [], ◌∷◌, ◌++◌, Option, none, some,
  Bool, true, false, not, ◌&&◌, ◌==◌, ltb, leb, if◌then◌else◌,
}
use cs537_group_projects.Wfs.Disk.{Disk, load_int, load_long, byte}
use cs537_group_projects.Wfs.Format.{Sb, block_size}
use cs537_group_projects.Wfs.Inode.{
  inode_at, ind_block, mode_of, size_of, nlinks_of, block_of, dentry_at, dentry_num,
  update_inode_times,
}
use cs537_group_projects.Wfs.Lookup.{Name, find_inode_number_by_path}
use cs537_group_projects.Wfs.Create.{Reply, returns, eexist, enoent}

-- `MIN`
abbrev pub min : ℕ → ℕ → ℕ
min a b = if ltb a b then a else b

-- The address of a block of a file, for the loop of `wfs_read`.
unfoldable pub data_block : Disk → ℕ → ℕ → ℕ
data_block disk inode block_num =
    if leb ind_block block_num
    then load_long disk (block_of disk inode ind_block + (block_num - ind_block) * 8)
    else block_of disk inode block_num

-- `memcpy` out of the image.
unfoldable pub bytes_at : Disk → ℕ → ℕ → List ℕ
bytes_at disk zero a = []
bytes_at disk (suc n) a = byte disk a ∷ bytes_at disk n (a + 1)

-- The loop: what it adds to `buf` from the bytes left, the block and the offset in it. Each round
-- reads a byte at least, so the bytes left at first are rounds enough.
unfoldable pub read_blocks : ℕ → Disk → ℕ → ℕ → ℕ → ℕ → List ℕ
unfolding data_block bytes_at
read_blocks zero disk inode block_num block_offset bytes_left = []
read_blocks (suc rounds) disk inode block_num block_offset bytes_left =
    let bytes_to_read = min (block_size - block_offset) bytes_left in
    let rest = read_blocks rounds disk inode (block_num + 1) 0 (bytes_left - bytes_to_read) in
    if bytes_left == 0
    then []
    else bytes_at disk bytes_to_read (data_block disk inode block_num + block_offset) ++ rest

-- `effective_file_size`
abbrev pub effective_file_size : ℕ → ℕ → ℕ
effective_file_size offset size = if leb size offset then 0 else size - offset

-- The image, what is returned and what stands in `buf`.
unfoldable pub wfs_read : Sb → List Name → ℕ → ℕ → ℕ → Disk → Disk × Reply × List ℕ
unfolding find_inode_number_by_path read_blocks update_inode_times
wfs_read sb path size offset now disk =
    let (parent_num, inode_num) = find_inode_number_by_path disk sb path in
    elim inode_num [
      | none ↦ (disk, eexist, [])
      | some num ↦
          let inode = inode_at sb num in
          let bytes_left = min size (effective_file_size offset (size_of disk inode)) in
          (
            update_inode_times now false disk inode,
            returns bytes_left,
            read_blocks bytes_left disk inode (offset / block_size) (offset % block_size)
                bytes_left,
          )
    ]

-- The fields of `struct stat` that are filled in.
pub record Stat : Type 0 where
  pub st_ino : ℕ
  pub st_mode : ℕ
  pub st_nlink : ℕ
  pub st_uid : ℕ
  pub st_gid : ℕ
  pub st_size : ℕ
  pub st_atime : ℕ
  pub st_mtime : ℕ
  pub st_ctime : ℕ
  pub st_blocks : ℕ
  pub st_blksize : ℕ

-- `none` is -ENOENT.
unfoldable pub wfs_getattr : Sb → List Name → Disk → Option Stat
unfolding find_inode_number_by_path
wfs_getattr sb path disk = elim (find_inode_number_by_path disk sb path).1 [
  | none ↦ none
  | some num ↦
      let inode = inode_at sb num in
      let size = size_of disk inode in
      some (record {
        st_ino = num;
        st_mode = mode_of disk inode;
        st_nlink = nlinks_of disk inode;
        st_uid = load_int disk (inode + 8);
        st_gid = load_int disk (inode + 12);
        st_size = size;
        st_atime = load_long disk (inode + 32);
        st_mtime = load_long disk (inode + 40);
        st_ctime = load_long disk (inode + 48);
        st_blocks = if size % block_size == 0 then size / block_size else size / block_size + 1;
        st_blksize = block_size;
      })
]

-- The loops over `j` and `i`: the addresses of the names given to `filler`.
unfoldable pub list_block : ℕ → ℕ → Disk → ℕ → List ℕ
list_block zero j disk block = []
list_block (suc n) j disk block =
    let rest = list_block n (j + 1) disk block in
    if is_positive (dentry_num disk (dentry_at block j)) then dentry_at block j ∷ rest else rest

unfoldable pub list_blocks : ℕ → ℕ → Disk → ℕ → List ℕ
unfolding list_block
list_blocks zero i disk inode = []
list_blocks (suc n) i disk inode =
    let rest = list_blocks n (i + 1) disk inode in
    if block_of disk inode i == 0
    then rest
    else list_block 16 0 disk (block_of disk inode i) ++ rest

-- The entries behind "." and "..". `none`: the path is not found, which the code does not test, and
-- an inode in front of the first is read.
unfoldable pub wfs_readdir : Sb → List Name → Disk → Option (List ℕ)
unfolding find_inode_number_by_path list_blocks
wfs_readdir sb path disk =
    Option.map (λ num. list_blocks 7 0 disk (inode_at sb num))
      (find_inode_number_by_path disk sb path).1
