-- ===== src/Wfs/Write/Call.antt =====
-- `wfs_write` of p7/wfs.c, a whole call into direct blocks that the file has.
use cs537_group_projects.Base.{
  ℕ, ◌+◌, ◌*◌, ◌/◌, ◌%◌, ◌^◌, ◌<◌, ◌≤◌, ◌≡◌, refl, sym, ap, ◌∙◌, subst, List, ◌⊎◌, Option, none,
  some, true, false, ltb, if◌then◌else◌, arith, Bool-cases, inl, inr,
}
use cs537_group_projects.Wfs.Disk.{
  Disk, byte, store_long, store_long-apart, load_long-store_long, load_long-store_long_apart,
}
use cs537_group_projects.Wfs.Format.{Sb}
use cs537_group_projects.Wfs.Inode.{inode_at, size_of, block_of, update_inode_times}
use cs537_group_projects.Wfs.Lookup.{Name, find_inode_number_by_path}
use cs537_group_projects.Wfs.Create.{Reply, returns, enoent}
use cs537_group_projects.Wfs.Read.Content.{content}
use cs537_group_projects.Wfs.Write.{
  Writing, goes_on, write_direct, finish, extend_size, write_behind, write_inode_at, and_then,
  and_write, wfs_write,
}
use cs537_group_projects.Wfs.Write.Direct.{
  Same, Mapped, Wrote, Mapped-Same, content-direct, load_long-Same,
}
use cs537_group_projects.Wfs.Write.Loop.{write_direct-Ends}

finish-full :
    (now inode offset : ℕ) (w : Writing)
    → w.size ≡ 0
    → finish now inode offset w ≡ (
      update_inode_times now true (extend_size w.disk inode (offset + w.bytes_written)) inode,
      returns w.bytes_written,
    )
unfolding finish
finish-full now inode offset w e = let full : ltb 0 w.size ≡ false = ground arith in rw full refl

-- The image changes from byte 16 up to byte 56 of the inode only.
abbrev Stamped : ℕ → Disk → Disk → Type 0
Stamped inode disk after = (x : ℕ) → (x < inode + 16) ⊎ (inode + 56 ≤ x) → after x ≡ disk x

extend-Stamped : (inode end : ℕ) (disk : Disk) → Stamped inode disk (extend_size disk inode end)
extend-Stamped inode end disk x h = elim (Bool-cases (ltb (size_of disk inode) end)) [
  | inl more ↦ rw more (store_long-apart disk (inode + 16) end x (ground arith))
  | inr enough ↦ rw enough refl
]

extend-size :
    (inode end : ℕ) (disk : Disk)
    → end < 2 ^ 64
    → size_of (extend_size disk inode end) inode
      ≡ (if ltb (size_of disk inode) end then end else size_of disk inode)
extend-size inode end disk small = elim (Bool-cases (ltb (size_of disk inode) end)) [
  | inl more ↦ rw more (load_long-store_long disk (inode + 16) end small)
  | inr enough ↦ rw enough refl
]

stamp-Stamped :
    (now inode end : ℕ) (disk : Disk)
    → Stamped inode disk (update_inode_times now true (extend_size disk inode end) inode)
unfolding update_inode_times
stamp-Stamped now inode end disk x h =
    let sized = extend_size disk inode end in
    let seen = store_long (store_long sized (inode + 32) now) (inode + 48) now in
    store_long-apart seen (inode + 40) now x (ground arith)
    ∙ store_long-apart (store_long sized (inode + 32) now) (inode + 48) now x (ground arith)
    ∙ store_long-apart sized (inode + 32) now x (ground arith)
    ∙ extend-Stamped inode end disk x h

stamp-size :
    (now inode end : ℕ) (disk : Disk)
    → end < 2 ^ 64
    → size_of (update_inode_times now true (extend_size disk inode end) inode) inode
      ≡ (if ltb (size_of disk inode) end then end else size_of disk inode)
unfolding update_inode_times
stamp-size now inode end disk small =
    let sized = extend_size disk inode end in
    let seen = store_long (store_long sized (inode + 32) now) (inode + 48) now in
    load_long-store_long_apart seen (inode + 40) now (inode + 16) (inl (omega arith))
    ∙ load_long-store_long_apart (store_long sized (inode + 32) now) (inode + 48) now (inode + 16)
        (inl (omega arith))
    ∙ load_long-store_long_apart sized (inode + 32) now (inode + 16) (inl (omega arith))
    ∙ extend-size inode end disk small

Stamped-content :
    (disk after : Disk) (inode n k : ℕ)
    → Mapped disk inode n
    → Stamped inode disk after
    → k < n * 512
    → content after inode k ≡ content disk inode k
Stamped-content disk after inode n k mapped stamped h =
    let i = k / 512 in
    let o = k % 512 in
    let inside : i < n = omega arith in
    let direct : i < 7 = omega (arith, mapped.direct) in
    let pointers : Same (inode + 56) (inode + 120) disk after = λ x a b. stamped x (inr a) in
    let block : block_of after inode i ≡ block_of disk inode i =
      load_long-Same (inode + 56) (inode + 120) disk after (inode + 56 + i * 8) pointers
        (omega arith) (omega arith) in
    content-direct after inode i o k direct (omega arith) (omega arith)
    ∙ ap (λ b. byte after (b + o)) block
    ∙ ap (λ v. v % 256)
        (stamped (block_of disk inode i + o) (ground (arith, mapped.off_inode i inside)))
    ∙ sym (content-direct disk inode i o k direct (omega arith) (omega arith))

-- What a write of `size` bytes at `offset` leaves: the bytes in the file, the other bytes of its
-- first `limit` as before, and the size.
pub record Stored (disk after : Disk) (inode limit offset size : ℕ) (buf : ℕ → ℕ) : Type 0 where
  pub bytes : (k : ℕ) → k < size → content after inode (offset + k) ≡ buf k % 256
  pub others :
      (k : ℕ)
      → k < limit
      → (k < offset) ⊎ (offset + size ≤ k)
      → content after inode k ≡ content disk inode k
  pub file_size :
      size_of after inode
      ≡ (if ltb (size_of disk inode) (offset + size) then offset + size else size_of disk inode)

write_behind-done :
    (sb : Sb) (inode now offset : ℕ) (buf : ℕ → ℕ) (w : Writing)
    → w.size ≡ 0
    → write_behind sb inode now offset buf w ≡ goes_on w
unfolding write_behind
write_behind-done sb inode now offset buf w e =
    let full : ltb 0 w.size ≡ false = ground arith in rw full refl

abbrev begin : Disk → ℕ → ℕ → Writing
begin disk size offset = record {
  disk = disk;
  size = size;
  bytes_written = 0;
  block_index = offset / 512;
  block_offset = offset % 512;
}

-- A call in which the direct blocks take all bytes.
write_inode_at-direct :
    (sb : Sb) (inode now : ℕ) (buf : ℕ → ℕ) (size offset : ℕ) (disk : Disk) (after : Writing)
    → write_direct 7 sb inode now offset buf (begin disk size offset) ≡ goes_on after
    → after.size ≡ 0
    → write_inode_at sb inode now buf size offset disk ≡ (
      update_inode_times now true
          (extend_size after.disk inode (offset + after.bytes_written))
          inode,
      returns after.bytes_written,
    )
unfolding write_inode_at
write_inode_at-direct sb inode now buf size offset disk after ends none_left =
    ap
      (λ r. and_then (and_write r (write_behind sb inode now offset buf)) (finish now inode offset))
      ends
    ∙ ap (λ r. and_then r (finish now inode offset))
        (write_behind-done sb inode now offset buf after none_left)
    ∙ finish-full now inode offset after none_left

abbrev Success : Disk → ℕ → ℕ → ℕ → ℕ → (ℕ → ℕ) → Disk × Reply → Type 0
Success disk inode limit offset size buf (after, reply) =
    (reply ≡ returns size) × Stored disk after inode limit offset size buf

-- The end of such a call.
stamped-Success :
    (now inode offset size n : ℕ) (buf : ℕ → ℕ) (disk : Disk) (mid : Disk)
    → Mapped disk inode n
    → offset + size ≤ n * 512
    → offset + size < 2 ^ 64
    → Wrote disk mid inode (n * 512) offset size 0 buf
    → Success disk inode
        (n * 512)
        offset
        size
        buf
        (update_inode_times now true (extend_size mid inode (offset + size)) inode, returns size)
stamped-Success now inode offset size n buf disk mid mapped room small wrote =
    let final = update_inode_times now true (extend_size mid inode (offset + size)) inode in
    let mapped' = Mapped-Same disk mid inode n wrote.same_inode mapped in
    let kept : (k : ℕ) → k < n * 512 → content final inode k ≡ content mid inode k = λ k h.
      Stamped-content mid final inode n k mapped' (stamp-Stamped now inode (offset + size) mid) h in
    let old_size : size_of mid inode ≡ size_of disk inode =
      load_long-Same inode (inode + 120) disk mid (inode + 16) wrote.same_inode (omega arith)
        (omega arith) in
    (
      refl,
      record {
        bytes = λ k h.
            kept (offset + k) (omega arith)
            ∙ wrote.inside (offset + k) (omega arith) (omega arith)
            ∙ ap (λ i. buf i % 256) (omega arith);
        others = λ k h off. kept k h ∙ wrote.outside k h off;
        file_size =
            stamp-size now inode (offset + size) mid small
            ∙ ap (λ s. if ltb s (offset + size) then offset + size else s) old_size;
      },
    )

write_inode_at-Success :
    (sb : Sb) (inode now : ℕ) (buf : ℕ → ℕ) (size offset n : ℕ) (disk : Disk)
    → Mapped disk inode n
    → offset + size ≤ n * 512
    → offset + size < 2 ^ 64
    → Success disk inode
        (n * 512)
        offset
        size
        buf
        (write_inode_at sb inode now buf size offset disk)
write_inode_at-Success sb inode now buf size offset n disk mapped room small =
    let (after, ends, wrote, none_left, count) =
      write_direct-Ends 7 sb inode now offset n offset buf (begin disk size offset) mapped
        (omega arith) (omega arith) room (omega (arith, mapped.direct)) in
    let written : size ≡ after.bytes_written = omega (arith, count) in
    subst (Success disk inode (n * 512) offset size buf)
      (ap
          (λ (c : ℕ). (
            update_inode_times now true (extend_size after.disk inode (offset + c)) inode,
            returns c,
          ))
          written
        ∙ sym (write_inode_at-direct sb inode now buf size offset disk after ends none_left))
      (stamped-Success now inode offset size n buf disk after.disk mapped room small wrote)

-- `wfs_write` into the first `n` direct blocks of a file, where these are allocated and lie apart from
-- the inode and from one another, writes all bytes: it returns their number, the file has the
-- bytes of the buffer from the offset on and its other bytes in these blocks as before, and its size
-- is at least the end of the bytes written.
pub wfs_write-Stored :
    (sb : Sb) (path : List Name) (now : ℕ) (buf : ℕ → ℕ) (size offset n : ℕ) (disk : Disk) (num : ℕ)
    → (find_inode_number_by_path disk sb path).1 ≡ some num
    → Mapped disk (inode_at sb num) n
    → offset + size ≤ n * 512
    → ((wfs_write sb path now buf size offset disk).1 ≡ returns size)
      × Stored disk
          (wfs_write sb path now buf size offset disk).0
          (inode_at sb num)
          (n * 512)
          offset
          size
          buf
unfolding wfs_write
wfs_write-Stored sb path now buf size offset n disk num found mapped room =
    let inode = inode_at sb num in
    subst (Success disk inode (n * 512) offset size buf)
      (sym (
        ap
          (λ (o : Option ℕ). elim o as (λ _. Disk × Reply) [
            | none ↦ (disk, enoent)
            | some k ↦ write_inode_at sb (inode_at sb k) now buf size offset disk
          ])
          found))
      (write_inode_at-Success sb inode now buf size offset n disk mapped room
        (omega (arith, mapped.direct)))
