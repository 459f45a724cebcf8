-- ===== src/Wfs/Format.antt =====
-- `main` of p7/mkfs.c from the test of its arguments on, with the structures of p7/wfs.h at the
-- offsets that a 64-bit C compiler gives their fields. `atoi` has been applied: a count that it
-- reads as negative fails the same test as 0 and is 0 here. The time and the user's and group's
-- numbers are what the system reports.
pub mod Layout
pub mod Fresh
use Prim.Native.Nat.{bit_or}
use cs537_group_projects.Base.{
  ℕ, zero, suc, ◌+◌, ◌-◌, ◌*◌, ◌/◌, ◌%◌, ◌^◌, Option, none, some, Bool, true, false, ◌==◌, ltb,
  if◌then◌else◌,
}
use cs537_group_projects.Wfs.Disk.{Disk, load_int, store_int, store_long}

abbrev pub block_size : ℕ
block_size = 512

-- `sizeof(struct wfs_sb)`
abbrev pub sb_size : ℕ
sb_size = 48

-- `struct wfs_sb`
pub record Sb : Type 0 where
  pub num_inodes : ℕ
  pub num_data_blocks : ℕ
  pub i_bitmap_ptr : ℕ
  pub d_bitmap_ptr : ℕ
  pub i_blocks_ptr : ℕ
  pub d_blocks_ptr : ℕ

unfoldable pub round_up : ℕ → ℕ
round_up n = if n % 32 == 0 then n else n + 32 - n % 32

-- A product of two `int`s as a `size_t`: it wraps at 32 bits and its sign is extended.
unfoldable pub int_product : ℕ → ℕ → ℕ
int_product a b = let x = a * b % 2 ^ 32 in if ltb x (2 ^ 31) then x else x + 2 ^ 64 - 2 ^ 32

unfoldable pub sb_of : ℕ → ℕ → Sb
unfolding int_product
sb_of i b =
    let d_bitmap = sb_size + (i + 7) / 8 in
    let i_blocks = d_bitmap + (b + 7) / 8 in
    record {
      num_inodes = i;
      num_data_blocks = b;
      i_bitmap_ptr = sb_size;
      d_bitmap_ptr = d_bitmap;
      i_blocks_ptr = i_blocks;
      d_blocks_ptr = (i_blocks + int_product i block_size) % 2 ^ 64;
    }

unfoldable pub filesystem_size : ℕ → ℕ → ℕ
unfolding int_product
filesystem_size i b =
    (sb_size + (i + 7) / 8 + (b + 7) / 8 + int_product i block_size + int_product b block_size)
    % 2 ^ 64

unfoldable pub write_sb : Disk → Sb → Disk
write_sb disk s =
    let counts = store_long (store_long disk 0 s.num_inodes) 8 s.num_data_blocks in
    let bitmaps = store_long (store_long counts 16 s.i_bitmap_ptr) 24 s.d_bitmap_ptr in
    store_long (store_long bitmaps 32 s.i_blocks_ptr) 40 s.d_blocks_ptr

-- What `getuid`, `getgid` and `time` return.
pub record Caller : Type 0 where
  pub uid : ℕ
  pub gid : ℕ
  pub now : ℕ

-- `S_IFDIR | S_IRWXU | S_IRWXG | S_IRWXO`
abbrev pub root_mode : ℕ
root_mode = 16895

-- The fields of the root inode at `at`. Their order in memory is num, mode, uid, gid, size,
-- nlinks, and after four bytes of padding atim, mtim, ctim, blocks.
unfoldable pub write_root : Disk → ℕ → Caller → Disk
write_root disk at who =
    let named = store_int (store_int disk at 0) (at + 4) root_mode in
    let owned = store_int (store_int named (at + 8) who.uid) (at + 12) who.gid in
    let linked = store_int (store_long owned (at + 16) 0) (at + 24) 1 in
    store_long (store_long (store_long linked (at + 32) who.now) (at + 40) who.now) (at + 48)
      who.now

-- The image that is written over the first `filesystem_size` bytes of the file.
unfoldable pub image : Sb → Caller → Disk
image s who =
    let rooted = write_root (write_sb (λ x. 0) s) s.i_blocks_ptr who in
    store_int rooted s.i_bitmap_ptr (bit_or (load_int rooted s.i_bitmap_ptr) 1)

-- `none` where `main` returns 1: no disk named, a count that is not positive, a file that is too
-- small, or an `mmap` that fails.
unfoldable pub mkfs : Bool → ℕ → ℕ → ℕ → Bool → Caller → Option (Sb × Disk)
mkfs named i b disk_img_size mapped who =
    if named
    then (if i == 0
        then none
        else (if b == 0
            then none
            else (let inodes = round_up i in
                let blocks = round_up b in
                if ltb disk_img_size (filesystem_size inodes blocks)
                then none
                else (if mapped
                    then some (sb_of inodes blocks, image (sb_of inodes blocks) who)
                    else none))))
    else none
