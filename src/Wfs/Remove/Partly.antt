-- ===== src/Wfs/Remove/Partly.antt =====
-- `wfs_rmdir` of p7/wfs.c on a directory that is not empty.
use cs537_group_projects.Base.{
  ℕ, zero, suc, ◌+◌, ◌-◌, ◌*◌, ◌/◌, ◌%◌, ◌<◌, ◌≤◌, ◌≡◌, ◌≢◌, ◌⊎◌, inl, inr, refl, ap, ap₂, ◌∙◌,
  List, some, true, false, ◌==◌, ltb, if◌then◌else◌, arith, is_positive,
}
use cs537_group_projects.Wfs.Bits.{bit}
use cs537_group_projects.Wfs.Bitmap.{flip_bit_in_bitmap}
use cs537_group_projects.Wfs.Bitmap.Search.{block_bit}
use cs537_group_projects.Wfs.Bitmap.Flip.{block_bit-flip, flip-apart}
use cs537_group_projects.Wfs.Outside.{clear_bytes-Outside, load_int-Outside}
use cs537_group_projects.Wfs.Write.Direct.{Same, load_int-Same, load_long-Same}
use cs537_group_projects.Wfs.Disk.{Disk, load_int, clear_bytes}
use cs537_group_projects.Wfs.Format.{Sb}
use cs537_group_projects.Wfs.Inode.{inode_at, block_of, dentry_at, dentry_num}
use cs537_group_projects.Wfs.Lookup.{Name, find_inode_number_by_path}
use cs537_group_projects.Wfs.Create.{enotempty}
use cs537_group_projects.Wfs.Remove.{in_use, free_block, kept, empty_blocks, wfs_rmdir}

-- The row of the bitmap with the bit of a data block.
abbrev pub row : Sb → ℕ → ℕ
row sb addr = sb.d_bitmap_ptr + (addr - sb.d_blocks_ptr) / 512 / 32 * 4

-- A block with an entry in use stops the loop.
block_in_use :
    (n i : ℕ) (sb : Sb) (inode : ℕ) (disk : Disk)
    → block_of disk inode i ≢ 0
    → in_use 16 0 disk (block_of disk inode i) ≡ true
    → empty_blocks (suc n) i sb inode disk ≡ kept disk
unfolding empty_blocks
block_in_use n i sb inode disk there used =
    let test : (block_of disk inode i == 0) ≡ false = ground arith in rw (test, used) refl

-- A block without one is freed on the way.
block_unused :
    (n i : ℕ) (sb : Sb) (inode : ℕ) (disk freed : Disk)
    → block_of disk inode i ≢ 0
    → in_use 16 0 disk (block_of disk inode i) ≡ false
    → free_block sb disk (block_of disk inode i) ≡ some freed
    → empty_blocks (suc n) i sb inode disk ≡ empty_blocks n (i + 1) sb inode freed
unfolding empty_blocks
block_unused n i sb inode disk freed there idle free =
    let test : (block_of disk inode i == 0) ≡ false = ground arith in rw (test, idle, free) refl

kept_reply :
    (sb : Sb) (path : List Name) (now : ℕ) (disk left : Disk) (num : ℕ)
    → (find_inode_number_by_path disk sb path).1 ≡ some num
    → empty_blocks 7 0 sb (inode_at sb num) disk ≡ kept left
    → wfs_rmdir sb path now disk ≡ (left, enotempty)
unfolding wfs_rmdir
kept_reply sb path now disk left num found e = rw (found, wfs_rmdir) (rw e refl)

-- Where the first block of a directory has an entry in use, `wfs_rmdir` refuses and changes nothing.
pub wfs_rmdir_not_empty :
    (sb : Sb) (path : List Name) (now : ℕ) (disk : Disk) (num : ℕ)
    → (find_inode_number_by_path disk sb path).1 ≡ some num
    → block_of disk (inode_at sb num) 0 ≢ 0
    → in_use 16 0 disk (block_of disk (inode_at sb num) 0) ≡ true
    → wfs_rmdir sb path now disk ≡ (disk, enotempty)
wfs_rmdir_not_empty sb path now disk num found there used =
    kept_reply sb path now disk disk num found
      (block_in_use 6 0 sb (inode_at sb num) disk there used)

-- Block `addr` is free: its bit in the bitmap is turned over and its bytes are 0, and the rest of the
-- image, but for the row of that bit, is as before.
pub record Freed (sb : Sb) (disk freed : Disk) (addr : ℕ) : Type 0 where
  pub bit :
      block_bit freed sb.d_bitmap_ptr ((addr - sb.d_blocks_ptr) / 512)
      ≡ 1 - block_bit disk sb.d_bitmap_ptr ((addr - sb.d_blocks_ptr) / 512)
  pub cleared : (x : ℕ) → addr ≤ x → x < addr + 512 → freed x ≡ 0
  pub others :
      (x : ℕ)
      → (x < addr) ⊎ (addr + 512 ≤ x)
      → (x < row sb addr) ⊎ (row sb addr + 4 ≤ x)
      → freed x ≡ disk x

clear_bytes-inside : (disk : Disk) (a n x : ℕ) → a ≤ x → x < a + n → clear_bytes disk a n x ≡ 0
unfolding clear_bytes
clear_bytes-inside disk a n x low high = ground arith

-- A block in the region of the data blocks, with its row of the bitmap in front of it.
free_block-Freed :
    (sb : Sb) (disk : Disk) (addr : ℕ)
    → sb.d_blocks_ptr ≤ addr
    → row sb addr + 4 ≤ addr
    → (freed : Disk) × (free_block sb disk addr ≡ some freed) × Freed sb disk freed addr
unfolding free_block
free_block-Freed sb disk addr inside apart =
    let n = (addr - sb.d_blocks_ptr) / 512 in
    let flipped = flip_bit_in_bitmap disk sb.d_bitmap_ptr n in
    let test : ltb addr sb.d_blocks_ptr ≡ false = ground (arith, inside) in
    let off = clear_bytes-Outside flipped addr 512 in
    let word : load_int (clear_bytes flipped addr 512) (row sb addr)
        ≡ load_int flipped (row sb addr) =
      load_int-Outside addr (addr + 512) flipped (clear_bytes flipped addr 512) (row sb addr) off
        (inl apart) in
    let turned : block_bit flipped sb.d_bitmap_ptr n ≡ 1 - block_bit disk sb.d_bitmap_ptr n =
      block_bit-flip disk sb.d_bitmap_ptr n n ∙ ground arith in
    (
      clear_bytes flipped addr 512,
      rw (free_block, test) refl,
      record {
        bit = ap (λ w. bit w (n % 32)) word ∙ turned;
        cleared = clear_bytes-inside flipped addr 512;
        others = λ x far outside_row. off x far ∙ flip-apart disk sb.d_bitmap_ptr n x outside_row;
      },
    )

-- The same entries are in use in a block that is the same.
in_use-Same :
    (n j : ℕ) (disk after : Disk) (block : ℕ)
    → j + n ≤ 16
    → Same block (block + 512) disk after
    → in_use n j after block ≡ in_use n j disk block
unfolding in_use
in_use-Same zero j disk after block h same = refl
in_use-Same (suc n) j disk after block h same =
    let num : dentry_num after (dentry_at block j) ≡ dentry_num disk (dentry_at block j) =
      load_int-Same block (block + 512) disk after (dentry_at block j + 28) same (omega arith)
        (omega (arith, h)) in
    ap₂ (λ w rest. if is_positive w then true else rest) num
      (in_use-Same n (j + 1) disk after block (omega (arith, h)) same)

-- Where the first block of a directory has no entry in use and the second one has, `wfs_rmdir`
-- refuses the directory as not empty, but has freed the first block: its bit in the bitmap is turned
-- over and its bytes are 0. The layout is that of mkfs: the row of the bit stands in front of the
-- directory's inode, and the inode in front of the data blocks, of which the two are different ones.
pub wfs_rmdir_partly :
    (sb : Sb) (path : List Name) (now : ℕ) (disk : Disk) (num first second : ℕ)
    → (find_inode_number_by_path disk sb path).1 ≡ some num
    → block_of disk (inode_at sb num) 0 ≡ first
    → block_of disk (inode_at sb num) 1 ≡ second
    → row sb first + 4 ≤ inode_at sb num
    → inode_at sb num + 120 ≤ sb.d_blocks_ptr
    → sb.d_blocks_ptr ≤ first
    → sb.d_blocks_ptr ≤ second
    → (first + 512 ≤ second) ⊎ (second + 512 ≤ first)
    → in_use 16 0 disk first ≡ false
    → in_use 16 0 disk second ≡ true
    → (freed : Disk) × (wfs_rmdir sb path now disk ≡ (freed, enotempty)) × Freed sb disk freed first
wfs_rmdir_partly sb path now disk num first second found at_first at_second layout before low high
      apart idle used =
    let inode = inode_at sb num in
    let (freed, free, gone) =
      free_block-Freed sb disk first low (omega (arith, layout, before, low)) in
    let same_inode : Same inode (inode + 120) disk freed = λ x a b.
      gone.others x (inl (omega (arith, b, before, low))) (inr (omega (arith, a, layout))) in
    let same_second : Same second (second + 512) disk freed = λ x a b.
      gone.others x (ground (arith, apart, a, b)) (inr (omega (arith, a, layout, before, high))) in
    let behind : block_of freed inode 1 ≡ second =
      load_long-Same inode (inode + 120) disk freed (inode + 56 + 1 * 8) same_inode (omega arith)
        (omega arith)
      ∙ at_second in
    let still : in_use 16 0 freed (block_of freed inode 1) ≡ true =
      ap (in_use 16 0 freed) behind
      ∙ in_use-Same 16 0 disk freed second (omega arith) same_second
      ∙ used in
    (
      freed,
      kept_reply sb path now disk freed num found (
          block_unused 6 0 sb inode disk freed (λ z. omega (arith, z, at_first, before, low))
            (ap (in_use 16 0 disk) at_first ∙ idle) (ap (free_block sb disk) at_first ∙ free)
          ∙ block_in_use 5 (0 + 1) sb inode freed (λ z. omega (arith, z, behind, before, high))
              still),
      gone,
    )
