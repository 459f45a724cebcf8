-- ===== src/Wfs/Format/Fresh.antt =====
-- The bitmaps of an image that p7/mkfs.c has just written: the root inode and nothing else is in
-- use.
use Prim.Native.Nat.{bit_or}
use cs537_group_projects.Base.{
  ℕ, suc, ◌+◌, ◌-◌, ◌*◌, ◌/◌, ◌^◌, ◌<◌, ◌≤◌, ◌≡◌, refl, sym, ◌∙◌, ap, some, Bool, arith, inl, inr,
  subst,
}
use cs537_group_projects.Wfs.Disk.{
  load_int-store_long, Disk, load_int, store_int, load_int-apart, load_int-store_int,
}
use cs537_group_projects.Wfs.Bitmap.{find_col, find_row, allocate_block}
use cs537_group_projects.Wfs.Format.{Sb, round_up, sb_of, Caller, image, mkfs, write_sb, write_root}
use cs537_group_projects.Wfs.Format.Layout.{mkfs_done, round_up-IsRounded}

-- The superblock lies in front of the bitmaps.
load_int-write_sb :
    (disk : Disk) (s : Sb) (b : ℕ) → 48 ≤ b → load_int (write_sb disk s) b ≡ load_int disk b
unfolding write_sb
load_int-write_sb disk s b h =
    load_int-store_long _ 40 s.d_blocks_ptr b (inr (omega arith))
    ∙ load_int-store_long _ 32 s.i_blocks_ptr b (inr (omega arith))
    ∙ load_int-store_long _ 24 s.d_bitmap_ptr b (inr (omega arith))
    ∙ load_int-store_long _ 16 s.i_bitmap_ptr b (inr (omega arith))
    ∙ load_int-store_long _ 8 s.num_data_blocks b (inr (omega arith))
    ∙ load_int-store_long _ 0 s.num_inodes b (inr (omega arith))

-- The root inode lies behind the bitmaps.
load_int-write_root :
    (disk : Disk) (at : ℕ) (who : Caller) (b : ℕ)
    → b + 4 ≤ at
    → load_int (write_root disk at who) b ≡ load_int disk b
unfolding write_root
load_int-write_root disk at who b h =
    load_int-store_long _ (at + 48) who.now b (inl (omega arith))
    ∙ load_int-store_long _ (at + 40) who.now b (inl (omega arith))
    ∙ load_int-store_long _ (at + 32) who.now b (inl (omega arith))
    ∙ load_int-apart _ (at + 24) 1 b (inl (omega arith))
    ∙ load_int-store_long _ (at + 16) 0 b (inl (omega arith))
    ∙ load_int-apart _ (at + 12) who.gid b (inl (omega arith))
    ∙ load_int-apart _ (at + 8) who.uid b (inl (omega arith))
    ∙ load_int-apart _ (at + 4) 16895 b (inl (omega arith))
    ∙ load_int-apart _ at 0 b (inl (omega arith))

find_first :
    (n : ℕ) (disk : Disk) (addr old col : ℕ)
    → load_int disk (addr + 0 * 4) ≡ old
    → find_col 32 0 old ≡ some col
    → old < 2 ^ 32 - 1
    → find_row (suc n) 0 disk addr ≡ some col
unfolding find_row
find_first n disk addr old col e f lt = rw e (ground (arith, f))

-- A search whose first row is known.
allocate_first :
    (disk : Disk) (addr size old col : ℕ)
    → 32 ≤ size
    → load_int disk addr ≡ old
    → find_col 32 0 old ≡ some col
    → old < 2 ^ 32 - 1
    → allocate_block disk addr size ≡ some col
unfolding allocate_block
allocate_first disk addr size old col h e f lt =
    ap (λ rows. find_row rows 0 disk addr) (omega arith)
    ∙ find_first (size / 32 - 1) disk addr old col (ap (load_int disk) (omega arith) ∙ e) f lt

load_int_zero : (b : ℕ) → load_int (λ x. 0) b ≡ 0
unfolding load_int
load_int_zero b = refl

-- Between the superblock and the root inode nothing is written before the bitmap.
rooted_zero :
    (s : Sb) (who : Caller) (b : ℕ)
    → 48 ≤ b
    → b + 4 ≤ s.i_blocks_ptr
    → load_int (write_root (write_sb (λ x. 0) s) s.i_blocks_ptr who) b ≡ 0
rooted_zero s who b h k =
    load_int-write_root (write_sb (λ x. 0) s) s.i_blocks_ptr who b k
    ∙ load_int-write_sb (λ x. 0) s b h
    ∙ load_int_zero b

image_rows :
    (s : Sb) (who : Caller)
    → 48 ≤ s.i_bitmap_ptr
    → s.i_bitmap_ptr + 4 ≤ s.d_bitmap_ptr
    → s.d_bitmap_ptr + 4 ≤ s.i_blocks_ptr
    → (load_int (image s who) s.i_bitmap_ptr ≡ 1) × (load_int (image s who) s.d_bitmap_ptr ≡ 0)
unfolding image
image_rows s who p q r =
    let rooted = write_root (write_sb (λ x. 0) s) s.i_blocks_ptr who in
    let inodes : load_int rooted s.i_bitmap_ptr ≡ 0 =
      rooted_zero s who s.i_bitmap_ptr p (omega arith) in
    let marked : bit_or (load_int rooted s.i_bitmap_ptr) 1 ≡ 1 = ap (λ old. bit_or old 1) inodes in
    (
      ap (λ v. load_int (store_int rooted s.i_bitmap_ptr v) s.i_bitmap_ptr) marked
          ∙ load_int-store_int rooted s.i_bitmap_ptr 1 (omega arith),
      load_int-apart rooted s.i_bitmap_ptr (bit_or (load_int rooted s.i_bitmap_ptr) 1)
            s.d_bitmap_ptr (inr q)
          ∙ rooted_zero s who s.d_bitmap_ptr (omega arith) r,
    )

search_fresh : (find_col 32 0 1 ≡ some 1) × (find_col 32 0 0 ≡ some 0)
unfolding find_col
search_fresh = (refl, refl)

abbrev IsFresh : Sb → Disk → Type 0
IsFresh s disk =
    (allocate_block disk s.i_bitmap_ptr s.num_inodes ≡ some 1)
    × (allocate_block disk s.d_bitmap_ptr s.num_data_blocks ≡ some 0)

image-IsFresh :
    (i b : ℕ) (who : Caller) → 32 ≤ i → 32 ≤ b → IsFresh (sb_of i b) (image (sb_of i b) who)
unfolding sb_of
image-IsFresh i b who h k =
    let (inodes, blocks) = image_rows (sb_of i b) who (omega arith) (omega arith) (omega arith) in
    (
      allocate_first (image (sb_of i b) who) 48 i 1 1 h inodes search_fresh.0 (omega arith),
      allocate_first (image (sb_of i b) who) (48 + (i + 7) / 8) b 0 0 k blocks search_fresh.1
          (omega arith),
    )

-- In an image that `mkfs` has made, `allocate_block` finds inode 1 as the first free one, as the
-- root has inode 0, and data block 0 as the first free block.
pub mkfs-IsFresh :
    (named : Bool) (i b disk_img_size : ℕ) (mapped : Bool) (who : Caller) (s : Sb) (disk : Disk)
    → mkfs named i b disk_img_size mapped who ≡ some (s, disk)
    → (allocate_block disk s.i_bitmap_ptr s.num_inodes ≡ some 1)
      × (allocate_block disk s.d_bitmap_ptr s.num_data_blocks ≡ some 0)
mkfs-IsFresh named i b disk_img_size mapped who s disk e =
    let (room, same, x, y) = mkfs_done named i b disk_img_size mapped who (s, disk) e in
    let inodes = round_up-IsRounded i in
    let blocks = round_up-IsRounded b in
    subst (λ (o : Sb × Disk). IsFresh o.0 o.1) (sym same)
      (image-IsFresh (round_up i) (round_up b) who (omega arith) (omega arith))
