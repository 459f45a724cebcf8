-- ===== src/Wfs/Write/Direct.antt =====
-- `wfs_write` of p7/wfs.c into direct blocks that a file has: what the file holds afterwards.
use cs537_group_projects.Base.{
  ℕ, ◌+◌, ◌-◌, ◌*◌, ◌/◌, ◌%◌, ◌<◌, ◌≤◌, ◌≡◌, ◌≢◌, sym, ap, ◌∙◌, ◌⊎◌, ◌==◌, arith, Bool-cases, inl,
  inr,
}
use cs537_group_projects.Wfs.Disk.{Disk, byte, load_int, load_long, copy_bytes}
use cs537_group_projects.Wfs.Inode.{block_of}
use cs537_group_projects.Wfs.Read.{data_block}
use cs537_group_projects.Wfs.Read.Content.{content, content-at}

-- Two images that hold the same from `lo` up to `hi`.
abbrev pub Same : ℕ → ℕ → Disk → Disk → Type 0
Same lo hi disk after = (x : ℕ) → lo ≤ x → x < hi → after x ≡ disk x

pub load_int-Same :
    (lo hi : ℕ) (disk after : Disk) (a : ℕ)
    → Same lo hi disk after
    → lo ≤ a
    → a + 4 ≤ hi
    → load_int after a ≡ load_int disk a
unfolding load_int
load_int-Same lo hi disk after a same h k = rw (
  same a (omega arith) (omega arith),
  same (a + 1) (omega arith) (omega arith),
  same (a + 2) (omega arith) (omega arith),
  same (a + 3) (omega arith) (omega arith),
)

pub load_long-Same :
    (lo hi : ℕ) (disk after : Disk) (a : ℕ)
    → Same lo hi disk after
    → lo ≤ a
    → a + 8 ≤ hi
    → load_long after a ≡ load_long disk a
unfolding load_long
load_long-Same lo hi disk after a same h k = omega (
  arith,
  load_int-Same lo hi disk after a same h (omega arith),
  load_int-Same lo hi disk after (a + 4) same (omega arith) (omega arith),
)

-- The first `n` blocks of a file are there, and lie apart from the inode and from one another.
pub record Mapped (disk : Disk) (inode n : ℕ) : Type 0 where
  pub direct : n ≤ 7
  pub there : (i : ℕ) → i < n → block_of disk inode i ≢ 0
  pub off_inode :
      (i : ℕ)
      → i < n
      → (block_of disk inode i + 512 ≤ inode) ⊎ (inode + 120 ≤ block_of disk inode i)
  pub off_blocks :
      (i j : ℕ)
      → i < n
      → j < n
      → i ≢ j
      → (block_of disk inode i + 512 ≤ block_of disk inode j)
        ⊎ (block_of disk inode j + 512 ≤ block_of disk inode i)

-- `n` bytes of `buf` from byte `w` on stand in the file from byte `pos` on; the rest of the first
-- `limit` bytes and the inode are as before.
pub record Wrote (disk after : Disk) (inode limit pos n w : ℕ) (buf : ℕ → ℕ) : Type 0 where
  pub inside : (k : ℕ) → pos ≤ k → k < pos + n → content after inode k ≡ buf (w + (k - pos)) % 256
  pub outside :
      (k : ℕ) → k < limit → (k < pos) ⊎ (pos + n ≤ k) → content after inode k ≡ content disk inode k
  pub same_inode : Same inode (inode + 120) disk after

block_of-Same :
    (disk after : Disk) (inode i : ℕ)
    → Same inode (inode + 120) disk after
    → i < 8
    → block_of after inode i ≡ block_of disk inode i
block_of-Same disk after inode i same h =
    load_long-Same inode (inode + 120) disk after (inode + 56 + i * 8) same (omega arith)
      (omega arith)

pub Mapped-Same :
    (disk after : Disk) (inode n : ℕ)
    → Same inode (inode + 120) disk after
    → Mapped disk inode n
    → Mapped after inode n
Mapped-Same disk after inode n same m =
    let block : (i : ℕ) → i < n → block_of after inode i ≡ block_of disk inode i =
      λ i h. block_of-Same disk after inode i same (omega (arith, m.direct)) in
    record {
      direct = m.direct;
      there = λ i h z. m.there i h (sym (block i h) ∙ z);
      off_inode = λ i h. ground (arith, block i h, m.off_inode i h);
      off_blocks = λ i j h k ne. ground (arith, block i h, block j k, m.off_blocks i j h k ne);
    }

copy_bytes-inside :
    (disk : Disk) (a n : ℕ) (buf : ℕ → ℕ) (k x : ℕ)
    → a ≤ x
    → x < a + n
    → copy_bytes disk a n buf k x ≡ buf (k + (x - a))
unfolding copy_bytes
copy_bytes-inside disk a n buf k x h lt = ground arith

copy_bytes-outside :
    (disk : Disk) (a n : ℕ) (buf : ℕ → ℕ) (k x : ℕ)
    → (x < a) ⊎ (a + n ≤ x)
    → copy_bytes disk a n buf k x ≡ disk x
unfolding copy_bytes
copy_bytes-outside disk a n buf k x h = ground arith

data_block-direct :
    (disk : Disk) (inode i : ℕ) → i < 7 → data_block disk inode i ≡ block_of disk inode i
unfolding data_block
data_block-direct disk inode i h = ground arith

-- A direct block, with the byte in it, of a file.
pub content-direct :
    (disk : Disk) (inode i o k : ℕ)
    → i < 7
    → o < 512
    → k ≡ i * 512 + o
    → content disk inode k ≡ byte disk (block_of disk inode i + o)
content-direct disk inode i o k h lt e =
    sym (content-at disk inode i o k (omega (arith, h)) lt e)
    ∙ ap (λ b. byte disk (b + o)) (data_block-direct disk inode i h)

-- `memcpy` of `m` bytes to byte `o` of block `i`.
module _ (disk : Disk) (inode n i o m w pos : ℕ) (buf : ℕ → ℕ) (mapped : Mapped disk inode n)
    (lt : i < n) (fits : o + m ≤ 512) (small : o < 512) (e : pos ≡ i * 512 + o) where
  abbrev pub copied : Disk
  copied = copy_bytes disk (block_of disk inode i + o) m buf w

  copied-Same : Same inode (inode + 120) disk copied
  copied-Same x a b =
      copy_bytes-outside disk (block_of disk inode i + o) m buf w x
        (ground (arith, mapped.off_inode i lt))

  copied-block : (j : ℕ) → j < n → block_of copied inode j ≡ block_of disk inode j
  copied-block j h = block_of-Same disk copied inode j copied-Same (omega (arith, mapped.direct))

  copied-content :
      (j r k : ℕ)
      → j < n
      → r < 512
      → k ≡ j * 512 + r
      → content copied inode k ≡ byte copied (block_of disk inode j + r)
  copied-content j r k h lt e =
      content-direct copied inode j r k (omega (arith, mapped.direct)) lt e
      ∙ ap (λ b. byte copied (b + r)) (copied-block j h)

  apart-block :
      (j r : ℕ)
      → j < n
      → r < 512
      → (j * 512 + r < pos) ⊎ (pos + m ≤ j * 512 + r)
      → (block_of disk inode j + r < block_of disk inode i + o)
        ⊎ (block_of disk inode i + o + m ≤ block_of disk inode j + r)
  apart-block j r h below off = elim (Bool-cases (i == j)) [
    | inl same ↦
        let block : block_of disk inode i ≡ block_of disk inode j =
          ap (block_of disk inode) (ground arith) in
        let index : i ≡ j = ground arith in ground (arith, off, e, block, index)
    | inr other ↦ let ne : i ≢ j = ground arith in ground (arith, mapped.off_blocks i j lt h ne)
  ]

  pub copy-Wrote : Wrote disk copied inode (n * 512) pos m w buf
  copy-Wrote = record {
    inside = λ k a b.
        let r = o + (k - pos) in
        let place : block_of disk inode i + r - (block_of disk inode i + o) ≡ k - pos =
          omega arith in
        copied-content i r k lt (omega arith) (omega arith)
        ∙ ap (λ v. v % 256)
            (copy_bytes-inside disk (block_of disk inode i + o) m buf w (block_of disk inode i + r)
                (omega arith) (omega arith)
              ∙ ap (λ d. buf (w + d)) place);
    outside = λ k h off.
        let j = k / 512 in
        let r = k % 512 in
        let inside : j < n = omega arith in
        copied-content j r k inside (omega arith) (omega arith)
        ∙ ap (λ v. v % 256)
            (copy_bytes-outside disk (block_of disk inode i + o) m buf w (block_of disk inode j + r)
              (apart-block j r inside (omega arith) (ground arith)))
        ∙ sym (
            content-direct disk inode j r k (omega (arith, mapped.direct)) (omega arith)
              (omega arith));
    same_inode = copied-Same;
  }
