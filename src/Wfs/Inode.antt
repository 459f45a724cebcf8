-- ===== src/Wfs/Inode.antt =====
-- `struct wfs_inode` and `struct wfs_dentry` of p7/wfs.h where they stand in the image, and
-- `update_inode_times` of p7/wfs.c. An inode has num, mode, uid and gid of four bytes, size of eight,
-- nlinks of four and four of padding, three times of eight and eight block addresses of eight. A
-- directory entry has 28 bytes of name and its num.
use cs537_group_projects.Base.{
  ℕ, ◌+◌, ◌-◌, ◌*◌, ◌%◌, ◌^◌, List, [], ◌∷◌, Bool, false, ◌==◌, ltb, if◌then◌else◌,
}
use cs537_group_projects.Wfs.Disk.{Disk, load_int, store_int, load_long, store_long, byte}
use cs537_group_projects.Wfs.Format.{Sb, block_size}

-- `IND_BLOCK`: the place of the indirect block among the addresses, after `D_BLOCK` = 6.
abbrev pub ind_block : ℕ
ind_block = 7

-- `sizeof(struct wfs_inode)` and `sizeof(struct wfs_dentry)`
abbrev pub inode_size : ℕ
inode_size = 120

abbrev pub dentry_size : ℕ
dentry_size = 32

abbrev pub inode_at : Sb → ℕ → ℕ
inode_at sb n = sb.i_blocks_ptr + n * block_size

abbrev pub mode_of : Disk → ℕ → ℕ
mode_of disk inode = load_int disk (inode + 4)

abbrev pub size_of : Disk → ℕ → ℕ
size_of disk inode = load_long disk (inode + 16)

abbrev pub nlinks_of : Disk → ℕ → ℕ
nlinks_of disk inode = load_int disk (inode + 24)

abbrev pub block_of : Disk → ℕ → ℕ → ℕ
block_of disk inode i = load_long disk (inode + 56 + i * 8)

abbrev pub set_size : Disk → ℕ → ℕ → Disk
set_size disk inode v = store_long disk (inode + 16) v

abbrev pub set_nlinks : Disk → ℕ → ℕ → Disk
set_nlinks disk inode v = store_int disk (inode + 24) v

abbrev pub set_block : Disk → ℕ → ℕ → ℕ → Disk
set_block disk inode i v = store_long disk (inode + 56 + i * 8) v

-- `x++` and `x--` of an `int`
abbrev pub add_one : ℕ → ℕ
add_one x = (x + 1) % 2 ^ 32

abbrev pub sub_one : ℕ → ℕ
sub_one x = (x + 2 ^ 32 - 1) % 2 ^ 32

-- `-1 < x` of an `int`
abbrev pub is_natural : ℕ → Bool
is_natural x = ltb x (2 ^ 31)

-- `now` is what `time` returns.
unfoldable pub update_inode_times : ℕ → Bool → Disk → ℕ → Disk
update_inode_times now modified disk inode =
    let seen = store_long (store_long disk (inode + 32) now) (inode + 48) now in
    if modified then store_long seen (inode + 40) now else seen

abbrev pub dentry_at : ℕ → ℕ → ℕ
dentry_at offset i = offset + i * dentry_size

abbrev pub dentry_num : Disk → ℕ → ℕ
dentry_num disk dentry = load_int disk (dentry + 28)

-- `strcmp(dentry->name, name) == 0`, for the bytes of a name that ends before its 0.
unfoldable pub has_name : Disk → ℕ → List ℕ → Bool
has_name disk a [] = byte disk a == 0
has_name disk a (c ∷ cs) =
    let rest = has_name disk (a + 1) cs in if byte disk a == c then rest else false

-- `strcpy(dentry->name, name)`, with its 0.
unfoldable pub store_name : Disk → ℕ → List ℕ → Disk
store_name disk a [] = λ x. if x == a then 0 else disk x
store_name disk a (c ∷ cs) = store_name (λ x. if x == a then c else disk x) (a + 1) cs
