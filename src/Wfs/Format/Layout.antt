-- ===== src/Wfs/Format/Layout.antt =====
-- The regions of the disk image of p7/mkfs.c: their order and their room.
use cs537_group_projects.Base.{
  ℕ, ◌+◌, ◌-◌, ◌*◌, ◌%◌, ◌^◌, ◌<◌, ◌≤◌, ◌≡◌, refl, sym, ap, some, Bool, arith, subst,
}
use cs537_group_projects.Wfs.Disk.{Disk}
use cs537_group_projects.Wfs.Format.{
  Sb, round_up, int_product, sb_of, filesystem_size, Caller, image, mkfs,
}

-- The regions one behind the other without a gap: a bit for each inode and data block, a block
-- of 512 bytes for each inode and data block, and the end.
abbrev pub IsLayout : Sb → ℕ → Type 0
IsLayout s size =
    (s.i_bitmap_ptr ≡ 48)
    × (s.d_bitmap_ptr * 8 ≡ s.i_bitmap_ptr * 8 + s.num_inodes)
    × (s.i_blocks_ptr * 8 ≡ s.d_bitmap_ptr * 8 + s.num_data_blocks)
    × (s.d_blocks_ptr ≡ s.i_blocks_ptr + s.num_inodes * 512)
    × (size ≡ s.d_blocks_ptr + s.num_data_blocks * 512)

abbrev pub IsRounded : ℕ → ℕ → Type 0
IsRounded n up = (up % 32 ≡ 0) × (n ≤ up) × (up < n + 32)

pub round_up-IsRounded : (n : ℕ) → IsRounded n (round_up n)
unfolding round_up
round_up-IsRounded n = (ground arith, ground arith, ground arith)

int_product-small : (a : ℕ) → a < 2 ^ 22 → int_product a 512 ≡ a * 512
unfolding int_product
int_product-small a h = ground arith

sb_of-IsLayout :
    (i b : ℕ)
    → i % 32 ≡ 0
    → b % 32 ≡ 0
    → i < 2 ^ 22
    → b < 2 ^ 22
    → IsLayout (sb_of i b) (filesystem_size i b)
unfolding sb_of filesystem_size
sb_of-IsLayout i b p q h k =
    let one = int_product-small i h in
    let two = int_product-small b k in
    (refl, omega arith, omega arith, omega (arith, one), omega (arith, one, two))

-- A superblock for at least `i` inodes and `b` data blocks in a file of a size.
abbrev pub IsPlaced : ℕ → ℕ → ℕ → Sb → Type 0
IsPlaced i b disk_img_size s =
    IsLayout s (filesystem_size s.num_inodes s.num_data_blocks)
    × (filesystem_size s.num_inodes s.num_data_blocks ≤ disk_img_size)
    × IsRounded i s.num_inodes
    × IsRounded b s.num_data_blocks

-- What `mkfs` has done where it does not fail.
pub mkfs_done :
    (named : Bool) (i b disk_img_size : ℕ) (mapped : Bool) (who : Caller) (out : Sb × Disk)
    → mkfs named i b disk_img_size mapped who ≡ some out
    → (filesystem_size (round_up i) (round_up b) ≤ disk_img_size)
      × (out ≡ (sb_of (round_up i) (round_up b), image (sb_of (round_up i) (round_up b)) who))
      × (1 ≤ i)
      × (1 ≤ b)
unfolding mkfs
mkfs_done named i b disk_img_size mapped who out e = ground arith

-- Where `mkfs` does not fail, the counts of inodes and data blocks are at least the ones asked
-- for, by less than 32, and multiples of 32, and the superblock places the two bitmaps, the
-- inodes and the data blocks one behind the other without a gap or an overlap, each with exactly
-- the room for its count, within the disk image file; the counts asked for are below 2 ^ 22 - 32.
pub mkfs-IsLayout :
    (named : Bool) (i b disk_img_size : ℕ) (mapped : Bool) (who : Caller) (s : Sb) (disk : Disk)
    → i < 2 ^ 22 - 32
    → b < 2 ^ 22 - 32
    → mkfs named i b disk_img_size mapped who ≡ some (s, disk)
    → IsPlaced i b disk_img_size s
unfolding sb_of
mkfs-IsLayout named i b disk_img_size mapped who s disk h k e =
    let (room, same, x, y) = mkfs_done named i b disk_img_size mapped who (s, disk) e in
    let inodes = round_up-IsRounded i in
    let blocks = round_up-IsRounded b in
    subst (IsPlaced i b disk_img_size) (sym (ap (λ o. o.0) same)) (
      sb_of-IsLayout (round_up i) (round_up b) inodes.0 blocks.0 (omega arith) (omega arith),
      room,
      inodes,
      blocks,
    )
