-- ===== src/Wfs/Create/Created.antt =====
-- The entry, the inode and the bitmap after `wfs_mknod` or `wfs_mkdir` of p7/wfs.c found a free entry.
use cs537_group_projects.Base.{
  ℕ, ◌+◌, ◌-◌, ◌*◌, ◌/◌, ◌%◌, ◌^◌, ◌<◌, ◌≤◌, ◌≡◌, ◌≢◌, ap, ◌∙◌, ◌⊎◌, inl, inr, List, true, ◌==◌,
  if◌then◌else◌, arith, length, Bool-cases,
}
use cs537_group_projects.Wfs.Disk.{Disk, load_int, store_int, load_long, load_int-store_int}
use cs537_group_projects.Wfs.Bits.{bit}
use cs537_group_projects.Wfs.Bitmap.{flip_bit_in_bitmap}
use cs537_group_projects.Wfs.Bitmap.Search.{block_bit}
use cs537_group_projects.Wfs.Bitmap.Flip.{block_bit-flip, flip-apart}
use cs537_group_projects.Wfs.Format.{Sb, Caller}
use cs537_group_projects.Wfs.Inode.{
  inode_at, nlinks_of, set_nlinks, add_one, dentry_num, has_name, store_name,
}
use cs537_group_projects.Wfs.Outside.{
  Outside, store_int-Outside, load_int-Outside, load_long-Outside, has_name-Outside,
  store_name-Outside, has_name-store_name, IsText,
}
use cs537_group_projects.Wfs.Create.{write_inode}
use cs537_group_projects.Wfs.Create.NewInode.{
  IsNewInode, write_inode-Outside, write_inode-IsNewInode,
}

-- Where the parts of the image stand: the bitmap of the inodes, the inodes, and the entry behind
-- them, with room for the name. The parent's inode `p` is one in use.
pub record Placed (sb : Sb) (disk : Disk) (p dentry : ℕ) (name : List ℕ) : Type 0 where
  pub bitmap : sb.i_bitmap_ptr + sb.num_inodes / 32 * 4 ≤ sb.i_blocks_ptr
  pub small : sb.num_inodes < 2 ^ 31
  pub parent : p < sb.num_inodes / 32 * 32
  pub parent_used : block_bit disk sb.i_bitmap_ptr p ≡ 1
  pub entry : sb.i_blocks_ptr + sb.num_inodes * 512 ≤ dentry
  pub text : IsText name
  pub short : length name < 28

-- The new entry, inode and bits, and the parent's count of links.
pub record Created (sb : Sb) (disk after : Disk) (p dentry : ℕ) (name : List ℕ) (mode n : ℕ)
    : Type 0 where
  pub number : dentry_num after dentry ≡ n
  pub named : has_name after dentry name ≡ true
  pub inode : IsNewInode after (inode_at sb n) mode
  pub bits :
      (m : ℕ)
      → m < sb.num_inodes / 32 * 32
      → block_bit after sb.i_bitmap_ptr m ≡ (if n == m then 1 else block_bit disk sb.i_bitmap_ptr m)
  pub linked : nlinks_of after (inode_at sb p) ≡ add_one (nlinks_of disk (inode_at sb p))

module _ (sb : Sb) (disk : Disk) (p dentry : ℕ) (name : List ℕ) (mode n : ℕ) (who : Caller)
    (placed : Placed sb disk p dentry name) (fits : mode < 2 ^ 32)
    (free : block_bit disk sb.i_bitmap_ptr n ≡ 0) (inside : n < sb.num_inodes / 32 * 32) where
  abbrev entered : Disk
  entered = store_int (store_name disk dentry name) (dentry + 28) n

  abbrev written : Disk
  written = write_inode entered (inode_at sb n) n mode who

  abbrev marked : Disk
  marked = flip_bit_in_bitmap written sb.i_bitmap_ptr n

  abbrev final : Disk
  final = set_nlinks marked (inode_at sb p) (add_one (nlinks_of marked (inode_at sb p)))

  other : n ≢ p
  other e = absurd (omega (arith, ap (block_bit disk sb.i_bitmap_ptr) e, placed.parent_used))

  entered-Outside : Outside dentry (dentry + 32) disk entered
  entered-Outside x h =
      store_int-Outside (store_name disk dentry name) (dentry + 28) n x (ground (arith, h))
      ∙ store_name-Outside disk dentry name x (ground (arith, h, placed.short))

  written-Outside : Outside (inode_at sb n) (inode_at sb n + 120) entered written
  written-Outside = write_inode-Outside entered (inode_at sb n) n mode who

  marked-Outside : Outside sb.i_bitmap_ptr sb.i_blocks_ptr written marked
  marked-Outside x h = flip-apart written sb.i_bitmap_ptr n x (ground (arith, h, placed.bitmap))

  final-Outside : Outside (inode_at sb p + 24) (inode_at sb p + 24 + 4) marked final
  final-Outside = store_int-Outside marked (inode_at sb p + 24) _

  -- From the inodes on nothing but the parent's count changes after the new inode is written.
  late-Outside : Outside sb.i_bitmap_ptr (sb.i_blocks_ptr + sb.num_inodes * 512) entered final
  late-Outside x h =
      final-Outside x (ground (arith, h, placed.parent, placed.bitmap))
      ∙ marked-Outside x (ground (arith, h))
      ∙ written-Outside x (ground (arith, h, placed.bitmap))

  number_lem : dentry_num final dentry ≡ n
  number_lem =
      load_int-Outside sb.i_bitmap_ptr (sb.i_blocks_ptr + sb.num_inodes * 512) entered final
        (dentry + 28) late-Outside (inr (omega (arith, placed.entry)))
      ∙ load_int-store_int (store_name disk dentry name) (dentry + 28) n
          (omega (arith, placed.small))

  named_lem : has_name final dentry name ≡ true
  named_lem =
      has_name-Outside sb.i_bitmap_ptr (sb.i_blocks_ptr + sb.num_inodes * 512) entered final dentry
        name late-Outside (inr (omega (arith, placed.entry)))
      ∙ has_name-Outside (dentry + 28) (dentry + 28 + 4) (store_name disk dentry name) entered
          dentry name (store_int-Outside (store_name disk dentry name) (dentry + 28) n)
          (inl (omega (arith, placed.short)))
      ∙ has_name-store_name disk dentry name placed.text

  apart_inodes :
      (inode_at sb n + 120 ≤ inode_at sb p + 24) ⊎ (inode_at sb p + 24 + 4 ≤ inode_at sb n)
  apart_inodes = ground (arith, other)

  late-int :
      (o : ℕ)
      → o + 4 ≤ 120
      → load_int final (inode_at sb n + o) ≡ load_int written (inode_at sb n + o)
  late-int o h =
      load_int-Outside (inode_at sb p + 24) (inode_at sb p + 24 + 4) marked final
        (inode_at sb n + o) final-Outside (ground (arith, h, apart_inodes))
      ∙ load_int-Outside sb.i_bitmap_ptr sb.i_blocks_ptr written marked (inode_at sb n + o)
          marked-Outside (inr (omega arith))

  late-long :
      (o : ℕ)
      → o + 8 ≤ 120
      → load_long final (inode_at sb n + o) ≡ load_long written (inode_at sb n + o)
  late-long o h =
      load_long-Outside (inode_at sb p + 24) (inode_at sb p + 24 + 4) marked final
        (inode_at sb n + o) final-Outside (ground (arith, h, apart_inodes))
      ∙ load_long-Outside sb.i_bitmap_ptr sb.i_blocks_ptr written marked (inode_at sb n + o)
          marked-Outside (inr (omega arith))

  inode_lem : IsNewInode final (inode_at sb n) mode
  inode_lem =
      let (kind, size, links) = write_inode-IsNewInode entered (inode_at sb n) n mode who fits in
      (
        late-int 4 (omega arith) ∙ kind,
        late-long 16 (omega arith) ∙ size,
        late-int 24 (omega arith) ∙ links,
      )

  early-Outside :
      (a : ℕ)
      → (a + 4 ≤ inode_at sb n) ⊎ (inode_at sb n + 120 ≤ a)
      → a + 4 ≤ sb.i_blocks_ptr + sb.num_inodes * 512
      → load_int written a ≡ load_int disk a
  early-Outside a h k =
      load_int-Outside (inode_at sb n) (inode_at sb n + 120) entered written a written-Outside h
      ∙ load_int-Outside dentry (dentry + 32) disk entered a entered-Outside
          (inl (omega (arith, placed.entry)))

  flipped_bit :
      (m : ℕ)
      → block_bit written sb.i_bitmap_ptr m ≡ block_bit disk sb.i_bitmap_ptr m
      → (if n == m
          then 1 - block_bit written sb.i_bitmap_ptr m
          else block_bit written sb.i_bitmap_ptr m)
        ≡ (if n == m then 1 else block_bit disk sb.i_bitmap_ptr m)
  flipped_bit m e = elim (Bool-cases (n == m)) [
    | inl same ↦
        let at_n : block_bit disk sb.i_bitmap_ptr m ≡ 0 =
          ap (block_bit disk sb.i_bitmap_ptr) {x = m} {y = n} (ground arith) ∙ free in
        rw same (omega (arith, e, at_n))
    | inr others ↦ rw others e
  ]

  bits_lem :
      (m : ℕ)
      → m < sb.num_inodes / 32 * 32
      → block_bit final sb.i_bitmap_ptr m ≡ (if n == m then 1 else block_bit disk sb.i_bitmap_ptr m)
  bits_lem m h =
      let at = sb.i_bitmap_ptr + m / 32 * 4 in
      let early : block_bit written sb.i_bitmap_ptr m ≡ block_bit disk sb.i_bitmap_ptr m =
        ap (λ w. bit w (m % 32))
          (early-Outside at (inl (omega (arith, placed.bitmap))) (omega (arith, placed.bitmap))) in
      ap (λ w. bit w (m % 32))
        (load_int-Outside (inode_at sb p + 24) (inode_at sb p + 24 + 4) marked final at
          final-Outside (inl (omega (arith, placed.bitmap))))
      ∙ block_bit-flip written sb.i_bitmap_ptr n m
      ∙ flipped_bit m early

  linked_lem : nlinks_of final (inode_at sb p) ≡ add_one (nlinks_of disk (inode_at sb p))
  linked_lem =
      load_int-store_int marked (inode_at sb p + 24) (add_one (nlinks_of marked (inode_at sb p)))
        (omega arith)
      ∙ ap add_one (
          load_int-Outside sb.i_bitmap_ptr sb.i_blocks_ptr written marked (inode_at sb p + 24)
            marked-Outside (inr (omega arith))
          ∙ early-Outside (inode_at sb p + 24) (ground (arith, other))
              (omega (arith, placed.parent)))

  pub final-Created : Created sb disk final p dentry name mode n
  final-Created = record {
    number = number_lem;
    named = named_lem;
    inode = inode_lem;
    bits = bits_lem;
    linked = linked_lem;
  }
