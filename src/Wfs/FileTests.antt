-- ===== src/Wfs/FileTests.antt =====
-- A small image with a root directory, on which the theorems on the operations are applied.
use cs537_group_projects.Base.{inl, ℕ, zero, suc, ◌≡◌, ◌≢◌, refl, ◌<◌, [], some, true, false, arith}
use cs537_group_projects.Wfs.Disk.{Disk, load_int, store_int, load_long, store_long}
use cs537_group_projects.Wfs.Format.{Sb, Caller}
use cs537_group_projects.Wfs.Inode.{block_of, size_of}
use cs537_group_projects.Wfs.Lookup.{find_inode_number_by_path}
use cs537_group_projects.Wfs.Create.{returns, enotempty}
use cs537_group_projects.Wfs.Create.Created.{Created}
use cs537_group_projects.Wfs.Remove.{in_use, wfs_rmdir}
use cs537_group_projects.Wfs.Remove.Partly.{Freed, wfs_rmdir_not_empty, wfs_rmdir_partly}
use cs537_group_projects.Wfs.Write.{wfs_write}
use cs537_group_projects.Wfs.Write.Direct.{Mapped}
use cs537_group_projects.Wfs.Write.Call.{Stored, wfs_write-Stored}

abbrev tiny : Sb
tiny = record {
  num_inodes = 32;
  num_data_blocks = 32;
  i_bitmap_ptr = 48;
  d_bitmap_ptr = 52;
  i_blocks_ptr = 56;
  d_blocks_ptr = 16440;
}

-- The root has two blocks and 100 bytes; an entry of the second block is in use.
abbrev root_disk : Disk
root_disk =
    store_int
      (store_int
        (store_int (store_long (store_long (store_long (λ x. 0) 112 16440) 120 16952) 72 100) 48 1)
        52 3)
      16980 5

abbrev user : Caller
user = record { uid = 3; gid = 4; now = 1000 }

root_found : (find_inode_number_by_path root_disk tiny []).1 ≡ some 0
unfolding find_inode_number_by_path
root_found = refl

first_block : block_of root_disk 56 0 ≡ 16440
unfolding load_long load_int store_long store_int
first_block = refl

root_size : size_of root_disk 56 ≡ 100
unfolding load_long load_int store_long store_int
root_size = refl

one_block : Mapped root_disk 56 1
one_block = record {
  direct = omega arith;
  there = λ i h z. absurd (omega (arith, first_block, at_zero i h, z));
  off_inode = λ i h. ground (arith, first_block, at_zero i h);
  off_blocks = λ i j h k ne. absurd (ne (omega arith));
}
  where
    at_zero : (i : ℕ) → i < 1 → block_of root_disk 56 i ≡ block_of root_disk 56 0
    at_zero zero h = refl
    at_zero (suc i) h = absurd (omega arith)

wfs_write-Stored_example :
    ((wfs_write tiny [] 77 (λ i. i) 300 20 root_disk).1 ≡ returns 300)
    × Stored root_disk (wfs_write tiny [] 77 (λ i. i) 300 20 root_disk).0 56 512 20 300 (λ i. i)
wfs_write-Stored_example =
    wfs_write-Stored tiny [] 77 (λ i. i) 300 20 1 root_disk 0 root_found one_block (omega arith)

-- The directory with its second block alone in the first place.
abbrev full_disk : Disk
full_disk = store_long root_disk 112 16952

full_block : block_of full_disk 56 0 ≡ 16952
unfolding load_long load_int store_long store_int
full_block = refl

full_used : in_use 16 0 full_disk 16952 ≡ true
unfolding in_use load_long load_int store_long store_int
full_used = refl

full_there : block_of full_disk 56 0 ≢ 0
full_there z = omega (arith, full_block, z)

full_found : (find_inode_number_by_path full_disk tiny []).1 ≡ some 0
unfolding find_inode_number_by_path
full_found = refl

full_directory_kept : wfs_rmdir tiny [] 77 full_disk ≡ (full_disk, enotempty)
full_directory_kept =
    wfs_rmdir_not_empty tiny [] 77 full_disk 0 full_found full_there (rw full_block full_used)

first_idle : in_use 16 0 root_disk 16440 ≡ false
unfolding in_use load_long load_int store_long store_int
first_idle = refl

second_block : block_of root_disk 56 1 ≡ 16952
unfolding load_long load_int store_long store_int
second_block = refl

second_used : in_use 16 0 root_disk 16952 ≡ true
unfolding in_use load_long load_int store_long store_int
second_used = refl

wfs_rmdir_partly_example :
    (freed : Disk) × (wfs_rmdir tiny [] 77 root_disk ≡ (freed, enotempty))
    × Freed tiny root_disk freed 16440
wfs_rmdir_partly_example =
    wfs_rmdir_partly tiny [] 77 root_disk 0 16440 16952 root_found first_block second_block
      (omega arith) (omega arith) (omega arith) (omega arith) (inl (omega arith)) first_idle
      second_used
