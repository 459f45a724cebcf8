-- ===== src/Wfs/Lookup.antt =====
-- `find_dentry` and `find_inode_number_by_path` of p7/wfs.c. A path is the list of names that
-- `strtok` finds in it.
pub mod Slots
use cs537_group_projects.Base.{
  is_positive, ℕ, zero, suc, ◌+◌, ◌-◌, ◌*◌, ◌/◌, ◌%◌, ◌^◌, List, [], ◌∷◌, ◌++◌, Option, none, some,
  Bool, true, false, not, ◌&&◌, ◌==◌, ltb, leb, if◌then◌else◌,
}
use cs537_group_projects.Wfs.Disk.{Disk}
use cs537_group_projects.Wfs.Format.{Sb}
use cs537_group_projects.Wfs.Inode.{
  inode_at, block_of, dentry_size, dentry_at, dentry_num, has_name,
}

abbrev pub Name : Type 0
Name = List ℕ

-- The number of the entry found, with `dentry_loc`; -2; and -1.
pub data Dentry : Type 0 where
  hit : ℕ → ℕ → Dentry
  unused : Dentry
  missing : Dentry

-- The loop over `i`, with the rounds left and `found`.
unfoldable pub find_slot : ℕ → ℕ → Bool → Disk → ℕ → Name → Dentry
unfolding has_name
find_slot zero i found disk offset name = if found then missing else unused
find_slot (suc n) i found disk offset name =
    let num = dentry_num disk (dentry_at offset i) in
    let rest = find_slot n (i + 1) (if is_positive num then true else found) disk offset name in
    if has_name disk (dentry_at offset i) name then hit num i else rest

-- The loop goes up to the size of an entry.
unfoldable pub find_dentry : Disk → ℕ → Name → Dentry
unfolding find_slot
find_dentry disk offset name = find_slot dentry_size 0 false disk offset name

-- The loop over the blocks of a directory: the first entry of the name with a positive number.
unfoldable pub search_blocks : ℕ → ℕ → Disk → ℕ → Name → Option ℕ
search_blocks zero i disk inode name = none
search_blocks (suc n) i disk inode name =
    let rest = search_blocks n (i + 1) disk inode name in
    elim (find_dentry disk (block_of disk inode i) name) [
      | hit num j ↦ if is_positive num then some num else rest
      | unused ↦ rest
      | missing ↦ rest
    ]

-- The loop over the names. The result is `parent_num` and `inode_num`, `none` for -1.
unfoldable pub walk : Disk → Sb → List Name → ℕ → ℕ → ℕ × Option ℕ
unfolding search_blocks
walk disk sb [] prev curr = (prev, some curr)
walk disk sb (name ∷ names) prev curr = elim (search_blocks 7 0 disk (inode_at sb curr) name) [
  | none ↦ (curr, none)
  | some n ↦ walk disk sb names curr n
]

unfoldable pub find_inode_number_by_path : Disk → Sb → List Name → ℕ × Option ℕ
unfolding walk
find_inode_number_by_path disk sb path = walk disk sb path 0 0
