-- ===== src/Wfs/Create/NewInode.antt =====
-- The inode that `wfs_mknod` and `wfs_mkdir` of p7/wfs.c write.
use cs537_group_projects.Base.{ℕ, ◌+◌, ◌^◌, ◌<◌, ◌≡◌, ◌∙◌, inl, arith}
use cs537_group_projects.Wfs.Disk.{
  Disk, store_int, store_long, clear_bytes, load_int-store_int, load_long-store_long,
}
use cs537_group_projects.Wfs.Format.{Caller}
use cs537_group_projects.Wfs.Inode.{mode_of, size_of, nlinks_of}
use cs537_group_projects.Wfs.Outside.{
  Outside, store_int-Outside, store_long-Outside, clear_bytes-Outside, load_int-Outside,
  load_long-Outside,
}
use cs537_group_projects.Wfs.Create.{write_inode}

-- The new inode.
pub write_inode-Outside :
    (disk : Disk) (at num mode : ℕ) (who : Caller)
    → Outside at (at + 120) disk (write_inode disk at num mode who)
unfolding write_inode
write_inode-Outside disk at num mode who x h =
    store_long-Outside _ (at + 48) who.now x (ground (arith, h))
    ∙ store_long-Outside _ (at + 40) who.now x (ground (arith, h))
    ∙ store_long-Outside _ (at + 32) who.now x (ground (arith, h))
    ∙ store_int-Outside _ (at + 24) 1 x (ground (arith, h))
    ∙ store_long-Outside _ (at + 16) 0 x (ground (arith, h))
    ∙ store_int-Outside _ (at + 12) who.gid x (ground (arith, h))
    ∙ store_int-Outside _ (at + 8) who.uid x (ground (arith, h))
    ∙ store_int-Outside _ (at + 4) mode x (ground (arith, h))
    ∙ store_int-Outside _ at num x (ground (arith, h))
    ∙ clear_bytes-Outside disk at 120 x h

-- The three times are stored last, behind byte 32.
times-Outside :
    (disk : Disk) (at now : ℕ)
    → Outside
        (at + 32)
        (at + 56)
        disk
        (store_long (store_long (store_long disk (at + 32) now) (at + 40) now) (at + 48) now)
times-Outside disk at now x h =
    store_long-Outside _ (at + 48) now x (ground (arith, h))
    ∙ store_long-Outside _ (at + 40) now x (ground (arith, h))
    ∙ store_long-Outside disk (at + 32) now x (ground (arith, h))

abbrev pub IsNewInode : Disk → ℕ → ℕ → Type 0
IsNewInode disk inode mode =
    (mode_of disk inode ≡ mode) × (size_of disk inode ≡ 0) × (nlinks_of disk inode ≡ 1)

pub write_inode-IsNewInode :
    (disk : Disk) (at num mode : ℕ) (who : Caller)
    → mode < 2 ^ 32
    → IsNewInode (write_inode disk at num mode who) at mode
unfolding write_inode
write_inode-IsNewInode disk at num mode who small =
    let base = clear_bytes disk at 120 in
    let named = store_int (store_int base at num) (at + 4) mode in
    let owned = store_int (store_int named (at + 8) who.uid) (at + 12) who.gid in
    let sized = store_long owned (at + 16) 0 in
    let linked = store_int sized (at + 24) 1 in
    let timed = times-Outside linked at who.now in
    (
      load_int-Outside (at + 32) (at + 56) linked _ (at + 4) timed (inl (omega arith))
          ∙ load_int-Outside (at + 24) (at + 24 + 4) sized linked (at + 4)
              (store_int-Outside sized (at + 24) 1) (inl (omega arith))
          ∙ load_int-Outside (at + 16) (at + 16 + 8) owned sized (at + 4)
              (store_long-Outside owned (at + 16) 0) (inl (omega arith))
          ∙ load_int-Outside (at + 12) (at + 12 + 4) _ owned (at + 4)
              (store_int-Outside _ (at + 12) who.gid) (inl (omega arith))
          ∙ load_int-Outside (at + 8) (at + 8 + 4) named _ (at + 4)
              (store_int-Outside named (at + 8) who.uid) (inl (omega arith))
          ∙ load_int-store_int (store_int base at num) (at + 4) mode small,
      load_long-Outside (at + 32) (at + 56) linked _ (at + 16) timed (inl (omega arith))
          ∙ load_long-Outside (at + 24) (at + 24 + 4) sized linked (at + 16)
              (store_int-Outside sized (at + 24) 1) (inl (omega arith))
          ∙ load_long-store_long owned (at + 16) 0 (omega arith),
      load_int-Outside (at + 32) (at + 56) linked _ (at + 24) timed (inl (omega arith))
          ∙ load_int-store_int sized (at + 24) 1 (omega arith),
    )
