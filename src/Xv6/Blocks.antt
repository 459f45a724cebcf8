-- ===== src/Xv6/Blocks.antt =====
-- The disk in blocks and the buffer cache over it: `bread`, `bwrite` of p5/xv6-public/bio.c with
-- `iderw`, and the loss of power. A block is 128 words. The driver writes one block at a time, whole
-- or not at all, and in order: `power` is how many more writes reach the disk, and when it is 0 the
-- code runs on without effect on the disk, as code that a power loss has stopped. Which clean
-- buffer the cache recycles is left out: a clean buffer reads as its block of the disk does.
use cs537_group_projects.Base.{update, ℕ, ◌-◌, Option, none, some, ◌==◌, if◌then◌else◌}

abbrev pub Block : Type 0
Block = ℕ → ℕ

pub record Machine : Type 0 where
  pub disk : ℕ → Block
  pub cache : ℕ → Option Block
  pub power : ℕ

unfoldable pub buffer_data : Option Block → Block → Block
buffer_data none on_disk = on_disk
buffer_data (some d) on_disk = d

-- The contents of the buffer that `bread` returns.
unfoldable pub bread : Machine → ℕ → Block
bread m blockno = buffer_data (m.cache blockno) (m.disk blockno)

-- The buffer of a block, changed and written.
unfoldable pub bwrite : Machine → ℕ → Block → Machine
bwrite m blockno d = record {
  disk = if m.power == 0 then m.disk else update m.disk blockno d;
  cache = update m.cache blockno (some d);
  power = m.power - 1;
}

-- The machine that starts again after a power loss, with power for `p` writes.
unfoldable pub restart : ℕ → Machine → Machine
restart p m = record { disk = m.disk; cache = λ _. none; power = p }
