-- ===== src/Wfs/Create.antt =====
-- `wfs_mknod` and `wfs_mkdir` of p7/wfs.c, which differ in the bit of the mode they set.
pub mod NewInode
pub mod Created
use cs537_group_projects.Base.{
  ℕ, zero, suc, ◌+◌, ◌-◌, ◌*◌, ◌/◌, ◌%◌, ◌^◌, List, [], ◌∷◌, ◌++◌, Option, none, some, Bool, true,
  false, not, ◌&&◌, ◌==◌, ltb, leb, if◌then◌else◌,
}
use Prim.Native.Nat.{bit_or}
use cs537_group_projects.Wfs.Disk.{Disk, load_int, store_int, store_long, clear_bytes}
use cs537_group_projects.Wfs.Bitmap.{allocate_block, flip_bit_in_bitmap}
use cs537_group_projects.Wfs.Format.{Sb, Caller, block_size}
use cs537_group_projects.Wfs.Inode.{
  inode_at, inode_size, block_of, set_block, nlinks_of, set_nlinks, add_one, dentry_at, dentry_num,
  store_name,
}
use cs537_group_projects.Wfs.Lookup.{Name, find_inode_number_by_path}

-- What an operation returns: a number that is not negative, or -EEXIST, -ENOENT, -ENOSPC,
-- -ENOTEMPTY; `stray` where the code writes below the data blocks or the bitmap.
pub data Reply : Type 0 where
  returns : ℕ → Reply
  eexist : Reply
  enoent : Reply
  enospc : Reply
  enotempty : Reply
  stray : Reply

-- `S_IFREG` and `S_IFDIR`
abbrev pub s_ifreg : ℕ
s_ifreg = 32768

abbrev pub s_ifdir : ℕ
s_ifdir = 16384

-- The last name of the path, which the second loop over `strtok` leaves in `name`.
abbrev pub last_name : List Name → Name
last_name [] = []
last_name (name ∷ []) = name
last_name (name ∷ other ∷ names) = last_name (other ∷ names)

-- `memcpy` of the new inode: it is 0 but for the fields that are set.
unfoldable pub write_inode : Disk → ℕ → ℕ → ℕ → Caller → Disk
write_inode disk at num mode who =
    let named = store_int (store_int (clear_bytes disk at inode_size) at num) (at + 4) mode in
    let owned = store_int (store_int named (at + 8) who.uid) (at + 12) who.gid in
    let linked = store_int (store_long owned (at + 16) 0) (at + 24) 1 in
    store_long (store_long (store_long linked (at + 32) who.now) (at + 40) who.now) (at + 48)
      who.now

-- The free entry is at `dentry`, and `mode` has the bit of the kind.
unfoldable pub create_at : Sb → ℕ → Caller → ℕ → Name → Disk → ℕ → Disk × Reply
unfolding write_inode
create_at sb mode who parent name disk dentry =
    elim (allocate_block disk sb.i_bitmap_ptr sb.num_inodes) [
      | none ↦ (disk, enospc)
      | some n ↦
          let entered = store_int (store_name disk dentry name) (dentry + 28) n in
          let written = write_inode entered (inode_at sb n) n mode who in
          let marked = flip_bit_in_bitmap written sb.i_bitmap_ptr n in
          (set_nlinks marked parent (add_one (nlinks_of marked parent)), returns 0)
    ]

-- The loop over `j`: the first entry with number 0.
unfoldable pub free_slot : ℕ → ℕ → Disk → ℕ → Option ℕ
free_slot zero j disk block = none
free_slot (suc n) j disk block =
    let rest = free_slot n (j + 1) disk block in
    if dentry_num disk (dentry_at block j) == 0 then some (dentry_at block j) else rest

-- A block of data for an address that is 0; `none` if there is none.
unfoldable pub grow : Sb → Disk → ℕ → ℕ → Option Disk
grow sb disk parent i = elim (allocate_block disk sb.d_bitmap_ptr sb.num_data_blocks) [
  | none ↦ none
  | some b ↦ some (
      flip_bit_in_bitmap (set_block disk parent i (sb.d_blocks_ptr + b * block_size))
        sb.d_bitmap_ptr b)
]

abbrev pub ensure_block : Sb → Disk → ℕ → ℕ → Option Disk
ensure_block sb disk parent i =
    if block_of disk parent i == 0 then grow sb disk parent i else some disk

-- The loop over `i`, with the rounds left.
unfoldable pub enter : ℕ → ℕ → Sb → ℕ → Caller → ℕ → Name → Disk → Disk × Reply
unfolding grow free_slot create_at
enter zero i sb mode who parent name disk = (disk, enospc)
enter (suc n) i sb mode who parent name disk = elim (ensure_block sb disk parent i) [
  | none ↦ (disk, enospc)
  | some grown ↦ elim (free_slot 16 0 grown (block_of grown parent i)) [
    | none ↦ enter n (i + 1) sb mode who parent name grown
    | some dentry ↦ create_at sb mode who parent name grown dentry
  ]
]

unfoldable pub make : ℕ → Sb → List Name → ℕ → Caller → Disk → Disk × Reply
unfolding enter find_inode_number_by_path
make kind sb path mode who disk =
    let (parent_num, inode_num) = find_inode_number_by_path disk sb path in
    elim inode_num [
      | some n ↦ (disk, eexist)
      | none ↦ enter 7 0 sb (bit_or mode kind) who (inode_at sb parent_num) (last_name path) disk
    ]

unfoldable pub wfs_mknod : Sb → List Name → ℕ → Caller → Disk → Disk × Reply
unfolding make
wfs_mknod = make s_ifreg

unfoldable pub wfs_mkdir : Sb → List Name → ℕ → Caller → Disk → Disk × Reply
unfolding make
wfs_mkdir = make s_ifdir
