-- ===== src/Xv6/Pipe.antt =====
-- `pipewrite`, `piperead` and `pipeclose` of p5/xv6-public/pipe.c (p4 has the same file), under the
-- pipe's lock. A call that sleeps stops with `sleeps`: it goes on from there when it is woken.
pub mod Window
pub mod Fifo
use cs537_group_projects.Base.{
  update, ℕ, zero, suc, ◌+◌, ◌-◌, ◌%◌, ◌^◌, List, [], ◌∷◌, ◌++◌, Bool, true, false, not, ◌&&◌, ◌||◌,
  ◌==◌, if◌then◌else◌,
}

abbrev pub pipe_size : ℕ
pipe_size = 512

-- `struct pipe`, less its lock.
pub record Pipe : Type 0 where
  pub data_at : ℕ → ℕ
  pub nread : ℕ
  pub nwrite : ℕ
  pub readopen : Bool
  pub writeopen : Bool

-- Where `pipewrite` stops: -1, asleep before byte `i`, or at its end.
pub data Writes : Type 0 where
  write_fails : Pipe → Writes
  write_sleeps : ℕ → Pipe → Writes
  written : Pipe → Writes

-- `p->data[p->nwrite++ % PIPESIZE] = c`
unfoldable pub push_byte : Pipe → ℕ → Pipe
push_byte p c = record p {
  data_at = update p.data_at (p.nwrite % pipe_size) c;
  nwrite = (p.nwrite + 1) % 2 ^ 32;
}

-- The loop from byte `i`, with `left` bytes to go.
unfoldable pub write_from : Bool → ℕ → ℕ → (ℕ → ℕ) → Pipe → Writes
write_from killed zero i addr p = written p
write_from killed (suc left) i addr p =
    let rest = write_from killed left (suc i) addr (push_byte p (addr i)) in
    if p.nwrite == (p.nread + pipe_size) % 2 ^ 32
    then (if not p.readopen || killed then write_fails p else write_sleeps i p)
    else rest

abbrev pub pipewrite : Bool → Pipe → (ℕ → ℕ) → ℕ → Writes
pipewrite killed p addr n = write_from killed n 0 addr p

-- Where `piperead` stops: -1, asleep, or with the bytes read.
pub data Reads : Type 0 where
  read_fails : Reads
  read_sleeps : Reads
  bytes : List ℕ → Pipe → Reads

-- The loop that copies, with room for `left` bytes.
unfoldable pub read_from : ℕ → Pipe → List ℕ × Pipe
read_from zero p = ([], p)
read_from (suc left) p =
    let (rest, last) = read_from left (record p { nread = (p.nread + 1) % 2 ^ 32 }) in
    if p.nread == p.nwrite then ([], p) else (p.data_at (p.nread % pipe_size) ∷ rest, last)

unfoldable pub piperead : Bool → Pipe → ℕ → Reads
piperead killed p n =
    let (read, after) = read_from n p in
    if p.nread == p.nwrite && p.writeopen
    then (if killed then read_fails else read_sleeps)
    else bytes read after

-- The pipe afterwards, and whether it is given back to `kfree`.
unfoldable pub pipeclose : Pipe → Bool → Pipe × Bool
pipeclose p writable =
    let after =
      if writable then record p { writeopen = false } else record p { readopen = false } in
    (after, not after.readopen && not after.writeopen)
