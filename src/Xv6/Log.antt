-- ===== src/Xv6/Log.antt =====
-- The log of p5/xv6-public/log.c (p4 has the same file): recovery, commit, and the counts that
-- `begin_op`, `end_op` and `log_write` keep. A call that would sleep gives `none`: it is tried
-- again when it is woken. An `int` is its bit pattern; only `outstanding` can be negative.
pub mod Installed
pub mod Crash
pub mod Recovery
pub mod Copied
pub mod Commit
pub mod Atomic
pub mod Reserve
pub mod Safe
use cs537_group_projects.Base.{
  update, is_positive, ℕ, zero, suc, ◌+◌, ◌-◌, ◌*◌, Option, none, some, Bool, true, false, ◌||◌,
  ◌%◌, ◌^◌, ◌==◌, ltb, leb, if◌then◌else◌,
}
use cs537_group_projects.Xv6.Blocks.{Block, Machine, bread, bwrite}

abbrev pub max_op_blocks : ℕ
max_op_blocks = 10

abbrev pub log_size : ℕ
log_size = 30

-- `struct log`, with its `struct logheader` in place (`n` and `block`).
pub record Log : Type 0 where
  pub start : ℕ
  pub size : ℕ
  pub outstanding : ℕ
  pub committing : Bool
  pub n : ℕ
  pub block : ℕ → ℕ

unfoldable pub install_from : ℕ → ℕ → Log → Machine → Machine
install_from zero tail g m = m
install_from (suc left) tail g m =
    install_from left (suc tail) g (bwrite m (g.block tail) (bread m (g.start + tail + 1)))

unfoldable pub install_trans : Log → Machine → Machine
install_trans g m = install_from g.n 0 g m

unfoldable pub read_head : Log → Machine → Log
read_head g m =
    let lh = bread m g.start in
    record g { n = lh 0; block = λ i. if ltb i (lh 0) then lh (i + 1) else g.block i }

-- The header block with the counts and numbers of the log in memory.
unfoldable pub head_block : Log → Block → Block
head_block g hb w = if w == 0 then g.n else (if leb w g.n then g.block (w - 1) else hb w)

unfoldable pub write_head : Log → Machine → Machine
write_head g m = bwrite m g.start (head_block g (bread m g.start))

unfoldable pub recover_from_log : Log → Machine → Machine
recover_from_log g m = let g = read_head g m in write_head (record g { n = 0 }) (install_trans g m)

-- `initlog`, from what `readsb` reads in block 1: `nlog` and `logstart`.
unfoldable pub initlog : Machine → Machine
initlog m =
    let sb = bread m 1 in
    recover_from_log
      (record {
        start = sb 4;
        size = sb 3;
        outstanding = 0;
        committing = false;
        n = 0;
        block = λ _. 0;
      })
      m

unfoldable pub write_log_from : ℕ → ℕ → Log → Machine → Machine
write_log_from zero tail g m = m
write_log_from (suc left) tail g m =
    write_log_from left (suc tail) g (bwrite m (g.start + tail + 1) (bread m (g.block tail)))

unfoldable pub write_log : Log → Machine → Machine
write_log g m = write_log_from g.n 0 g m

unfoldable pub commit : Log → Machine → Machine
commit g m =
    if ltb 0 g.n
    then write_head (record g { n = 0 }) (install_trans g (write_head g (write_log g m)))
    else m

-- One round of the loop of `begin_op`.
unfoldable pub begin_op : Log → Option Log
begin_op g =
    if g.committing
    then none
    else (if ltb log_size (g.n + (g.outstanding + 1) % 2 ^ 32 * max_op_blocks)
        then none
        else some (record g { outstanding = (g.outstanding + 1) % 2 ^ 32 }))

-- What a call of the log comes to.
pub data Logged : Type 0 where
  too_big outside_of_trans is_committing : Logged
  goes : Log → Logged

-- `end_op` up to the call of `commit`; `committing` says whether it is made.
unfoldable pub end_op : Log → Logged
end_op g =
    let left = (g.outstanding + 2 ^ 32 - 1) % 2 ^ 32 in
    if g.committing
    then is_committing
    else goes (record g { outstanding = left; committing = left == 0 })

-- `end_op` from the return of `commit`, which has emptied the log.
unfoldable pub committed : Log → Log
committed g = record g { n = 0; committing = false }

-- The index at which the loop of `log_write` stops, from index `i` with `left` entries to go.
unfoldable pub find_entry : ℕ → ℕ → Log → ℕ → ℕ
find_entry zero i g blockno = i
find_entry (suc left) i g blockno =
    let rest = find_entry left (i + 1) g blockno in if g.block i == blockno then i else rest

unfoldable pub record_block : Log → ℕ → Log
record_block g blockno =
    let i = find_entry g.n 0 g blockno in
    record g { block = update g.block i blockno; n = if i == g.n then g.n + 1 else g.n }

unfoldable pub log_write : Log → ℕ → Logged
log_write g blockno =
    if leb log_size g.n || leb (g.size - 1) g.n
    then too_big
    else (if is_positive g.outstanding then goes (record_block g blockno) else outside_of_trans)
