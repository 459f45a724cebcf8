-- ===== src/Wfs/Write/Loop.antt =====
-- The loop of `wfs_write` of p7/wfs.c over direct blocks, and the whole call.
use cs537_group_projects.Base.{
  ℕ, zero, suc, ◌+◌, ◌-◌, ◌*◌, ◌%◌, ◌<◌, ◌≤◌, ◌≡◌, ◌≢◌, refl, ap, ◌∙◌, subst, some, true, ◌&&◌,
  ◌==◌, ltb, arith, Bool-cases, inl, inr,
}
use cs537_group_projects.Wfs.Disk.{Disk, load_long}
use cs537_group_projects.Wfs.Format.{Sb}
use cs537_group_projects.Wfs.Inode.{block_of}
use cs537_group_projects.Wfs.Read.{min}
use cs537_group_projects.Wfs.Write.{Writing, Written, goes_on, allocate_at, put_bytes, write_direct}
use cs537_group_projects.Wfs.Write.Direct.{Mapped, Wrote, Mapped-Same, copy-Wrote}

Wrote-refl :
    (disk : Disk) (inode limit pos n w : ℕ) (buf : ℕ → ℕ)
    → n ≡ 0
    → Wrote disk disk inode limit pos n w buf
Wrote-refl disk inode limit pos n w buf e = record {
  inside = λ k a b. absurd (omega arith);
  outside = λ k a b. refl;
  same_inode = λ x a b. refl;
}

Wrote-trans :
    (disk mid after : Disk) (inode limit pos n next m w total : ℕ) (buf : ℕ → ℕ)
    → Wrote disk mid inode limit pos n w buf
    → Wrote mid after inode limit next m (w + n) buf
    → next ≡ pos + n
    → total ≡ n + m
    → next + m ≤ limit
    → Wrote disk after inode limit pos total w buf
Wrote-trans disk mid after inode limit pos n next m w total buf f g e t h = record {
  inside = λ k a b. elim (Bool-cases (ltb k next)) [
    | inl early ↦ g.outside k (ground arith) (inl (ground arith)) ∙ f.inside k a (ground arith)
    | inr late ↦
        let place : w + n + (k - next) ≡ w + (k - pos) = ground arith in
        g.inside k (ground arith) (omega arith) ∙ ap (λ i. buf i % 256) place
  ];
  outside = λ k a b. g.outside k a (ground arith) ∙ f.outside k a (ground arith);
  same_inode = λ x a b. g.same_inode x a b ∙ f.same_inode x a b;
}

-- The address of a block that is there.
allocate_at-there :
    (sb : Sb) (disk : Disk) (at : ℕ) → load_long disk at ≢ 0 → allocate_at sb disk at ≡ some disk
unfolding allocate_at
allocate_at-there sb disk at h = ground arith

-- The loop with nothing left to write.
write_direct_done :
    (r : ℕ) (sb : Sb) (inode now offset : ℕ) (buf : ℕ → ℕ) (w : Writing)
    → w.size ≡ 0
    → write_direct r sb inode now offset buf w ≡ goes_on w
unfolding write_direct
write_direct_done zero sb inode now offset buf w e = refl
write_direct_done (suc r) sb inode now offset buf w e = ground arith

-- A round of the loop into a block that is there.
write_direct_round :
    (r : ℕ) (sb : Sb) (inode now offset : ℕ) (buf : ℕ → ℕ) (w : Writing)
    → 0 < w.size
    → w.block_index < 7
    → block_of w.disk inode w.block_index ≢ 0
    → write_direct (suc r) sb inode now offset buf w
      ≡ write_direct r sb inode now offset buf (put_bytes buf 1 (inode + 56 + w.block_index * 8) w)
unfolding write_direct
write_direct_round r sb inode now offset buf w some_left direct there =
    let test : ltb 0 w.size && ltb w.block_index 7 ≡ true = ground arith in
    rw (test, allocate_at-there sb w.disk (inode + 56 + w.block_index * 8) there) refl

-- Where the loop ends.
abbrev pub Ends : Written → Writing → ℕ → ℕ → ℕ → (ℕ → ℕ) → Type 0
Ends result w inode limit pos buf =
    (after : Writing) × (result ≡ goes_on after)
    × Wrote w.disk after.disk inode limit pos w.size w.bytes_written buf
    × (after.size ≡ 0)
    × (after.bytes_written ≡ w.bytes_written + w.size)

empty-Ends :
    (r : ℕ) (sb : Sb) (inode now offset limit pos : ℕ) (buf : ℕ → ℕ) (w : Writing)
    → w.size ≡ 0
    → Ends (write_direct r sb inode now offset buf w) w inode limit pos buf
empty-Ends r sb inode now offset limit pos buf w e = (
  w,
  write_direct_done r sb inode now offset buf w e,
  Wrote-refl w.disk inode limit pos w.size w.bytes_written buf e,
  e,
  omega arith,
)

-- The end of the loop, from its end after a round of `m` bytes.
Ends-step :
    (result rest : Written) (w next : Writing) (inode limit pos m : ℕ) (buf : ℕ → ℕ)
    → result ≡ rest
    → Wrote w.disk next.disk inode limit pos m w.bytes_written buf
    → next.size ≡ w.size - m
    → next.bytes_written ≡ w.bytes_written + m
    → m ≤ w.size
    → pos + w.size ≤ limit
    → Ends rest next inode limit (pos + m) buf
    → Ends result w inode limit pos buf
Ends-step result rest w next inode limit pos m buf same first left written le room
      (after, e, second, none_left, count) =
    (
      after,
      same ∙ e,
      Wrote-trans w.disk next.disk after.disk inode limit pos m (pos + m) next.size w.bytes_written
          w.size buf first
          (subst (λ c. Wrote next.disk after.disk inode limit (pos + m) next.size c buf) written
            second)
          refl (omega arith) (omega arith),
      none_left,
      omega arith,
    )

put_bytes-Wrote :
    (inode n pos : ℕ) (buf : ℕ → ℕ) (w : Writing)
    → Mapped w.disk inode n
    → w.block_index < n
    → pos ≡ w.block_index * 512 + w.block_offset
    → w.block_offset < 512
    → Wrote w.disk
        (put_bytes buf 1 (inode + 56 + w.block_index * 8) w).disk
        inode
        (n * 512)
        pos
        (min w.size (512 - w.block_offset))
        w.bytes_written
        buf
unfolding put_bytes
put_bytes-Wrote inode n pos buf w mapped inside at small =
    copy-Wrote w.disk inode n w.block_index w.block_offset (min w.size (512 - w.block_offset))
      w.bytes_written pos buf mapped inside (ground arith) small at

-- A round, with the end of the loop after it.
round-Ends :
    (r : ℕ) (sb : Sb) (inode now offset n pos : ℕ) (buf : ℕ → ℕ) (w : Writing)
    → Mapped w.disk inode n
    → pos ≡ w.block_index * 512 + w.block_offset
    → w.block_offset < 512
    → pos + w.size ≤ n * 512
    → n ≤ w.block_index + suc r
    → 0 < w.size
    → (let next = put_bytes buf 1 (inode + 56 + w.block_index * 8) w in
        let m = min w.size (512 - w.block_offset) in
        m < w.size
        → Ends (write_direct r sb inode now offset buf next) next inode (n * 512) (pos + m) buf)
    → Ends (write_direct (suc r) sb inode now offset buf w) w inode (n * 512) pos buf
unfolding put_bytes
round-Ends r sb inode now offset n pos buf w mapped at small room rounds more ih =
    let m = min w.size (512 - w.block_offset) in
    let next = put_bytes buf 1 (inode + 56 + w.block_index * 8) w in
    let inside : w.block_index < n = omega (arith) in
    let le : m ≤ w.size = ground arith in
    let same =
      write_direct_round r sb inode now offset buf w more (omega (arith, mapped.direct))
        (mapped.there w.block_index inside) in
    let first = put_bytes-Wrote inode n pos buf w mapped inside at small in
    Ends-step (write_direct (suc r) sb inode now offset buf w)
      (write_direct r sb inode now offset buf next) w next inode (n * 512) pos m buf same first refl
      refl le room
      (elim (Bool-cases (ltb m w.size)) [
        | inl less ↦ ih (ground arith)
        | inr all ↦
            let e : next.size ≡ 0 = ground arith in
            empty-Ends r sb inode now offset (n * 512) (pos + m) buf next e
      ])

pub write_direct-Ends :
    (r : ℕ) (sb : Sb) (inode now offset n pos : ℕ) (buf : ℕ → ℕ) (w : Writing)
    → Mapped w.disk inode n
    → pos ≡ w.block_index * 512 + w.block_offset
    → w.block_offset < 512
    → pos + w.size ≤ n * 512
    → n ≤ w.block_index + r
    → Ends (write_direct r sb inode now offset buf w) w inode (n * 512) pos buf
unfolding put_bytes
write_direct-Ends zero sb inode now offset n pos buf w mapped at small room rounds =
    let e : w.size ≡ 0 = omega arith in empty-Ends zero sb inode now offset (n * 512) pos buf w e
write_direct-Ends (suc r) sb inode now offset n pos buf w mapped at small room rounds =
    elim (Bool-cases (w.size == 0)) [
      | inl empty ↦ empty-Ends (suc r) sb inode now offset (n * 512) pos buf w (ground arith)
      | inr more ↦
          let m = min w.size (512 - w.block_offset) in
          let next = put_bytes buf 1 (inode + 56 + w.block_index * 8) w in
          let first = put_bytes-Wrote inode n pos buf w mapped (ground arith) at small in
          round-Ends r sb inode now offset n pos buf w mapped at small room rounds (ground arith)
            λ less.
              write_direct-Ends r sb inode now offset n (pos + m) buf next
                (Mapped-Same w.disk next.disk inode n first.same_inode mapped) (ground arith)
                (omega arith) (omega arith) (omega arith)
    ]
