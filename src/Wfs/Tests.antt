-- ===== src/Wfs/Tests.antt =====
-- Small disk images on which the theorems on the file system are applied.
use cs537_group_projects.Base.{◌-◌, ◌≡◌, refl, some, true, arith, ◌==◌, if◌then◌else◌, inr}
use cs537_group_projects.Wfs.Disk.{Disk, load_int, store_int}
use cs537_group_projects.Wfs.Bitmap.{find_col, find_row, allocate_block, flip_bit_in_bitmap}
use cs537_group_projects.Wfs.Bitmap.Search.{block_bit, IsFirstZero, allocate_block-IsFirstZero}
use cs537_group_projects.Wfs.Bitmap.Flip.{block_bit-flip, flip-apart}
use cs537_group_projects.Wfs.Format.{
  Sb, Caller, mkfs, round_up, filesystem_size, int_product, sb_of, image,
}
use cs537_group_projects.Wfs.Format.Layout.{IsPlaced, mkfs-IsLayout}

-- Two rows: the first is full and the second has its lowest three bits set.
abbrev two_rows : Disk
two_rows x =
    if x == 4
    then 7
    else (if x == 5 then 0 else (if x == 6 then 0 else (if x == 7 then 0 else 255)))

abbrev root_user : Caller
root_user = record { uid = 0; gid = 0; now = 1000 }

-- An image of 33 inodes and 10 blocks asked for.
abbrev small_sb : Sb
small_sb = record {
  num_inodes = 64;
  num_data_blocks = 32;
  i_bitmap_ptr = 48;
  d_bitmap_ptr = 56;
  i_blocks_ptr = 60;
  d_blocks_ptr = 32828;
}

allocates : allocate_block two_rows 0 64 ≡ some 35
unfolding allocate_block find_row find_col load_int
allocates = refl

allocates_again : allocate_block (flip_bit_in_bitmap two_rows 0 35) 0 64 ≡ some 36
unfolding allocate_block find_row find_col load_int flip_bit_in_bitmap store_int
allocates_again = refl

formats : mkfs true 33 10 100000 true root_user ≡ some (small_sb, image small_sb root_user)
unfolding mkfs round_up filesystem_size int_product sb_of
formats = refl

allocate_block-IsFirstZero_example :
    IsFirstZero (block_bit two_rows 0) 0 64 (allocate_block two_rows 0 64)
allocate_block-IsFirstZero_example = allocate_block-IsFirstZero two_rows 0 64

block_bit-flip_example :
    block_bit (flip_bit_in_bitmap two_rows 0 35) 0 35 ≡ 1 - block_bit two_rows 0 35
block_bit-flip_example = block_bit-flip two_rows 0 35 35

flip-apart_example : flip_bit_in_bitmap two_rows 0 35 8 ≡ 255
flip-apart_example = flip-apart two_rows 0 35 8 (inr (omega arith))

mkfs-IsLayout_example : IsPlaced 33 10 100000 small_sb
mkfs-IsLayout_example =
    mkfs-IsLayout true 33 10 100000 true root_user small_sb (image small_sb root_user) (omega arith)
      (omega arith) formats
