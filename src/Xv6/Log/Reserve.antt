-- ===== src/Xv6/Log/Reserve.antt =====
-- The space that `begin_op` of p5/xv6-public/log.c reserves, over every order of calls by any number
-- of processes. `quotas` has, for each system call between `begin_op` and `end_op`, how many more
-- blocks it may log: `MAXOPBLOCKS` at first, by the contract of the log.
use cs537_group_projects.Base.{
  update, ℕ, zero, suc, ◌+◌, ◌*◌, ◌<◌, ◌≤◌, ◌≡◌, ◌≢◌, inl, inr, ap, ◌∙◌, ◌==◌, arith, true, false,
  some, List, [], ◌∷◌, ◌++◌, length, Bool-cases, if◌then◌else◌,
}
use cs537_group_projects.Xv6.Log.{
  Log, Logged, log_size, max_op_blocks, begin_op, end_op, committed, find_entry, record_block,
  log_write,
}

pub record Calls : Type 0 where
  pub log : Log
  pub quotas : List ℕ

-- A call of `begin_op` that does not sleep, a `log_write` and an `end_op` of one of the calls, and
-- the end of a commit.
pub data Step : Calls → Calls → Type 0 where
  begins :
      {g next : Log} {qs : List ℕ}
      → begin_op g ≡ some next
      → Step (record { log = g; quotas = qs }) (record { log = next; quotas = max_op_blocks ∷ qs })
  logs :
      {g next : Log} (q : ℕ) (us vs : List ℕ) (blockno : ℕ)
      → log_write g blockno ≡ Logged.goes next
      → Step
          (record { log = g; quotas = us ++ suc q ∷ vs })
          (record { log = next; quotas = us ++ q ∷ vs })
  ends :
      {g next : Log} (q : ℕ) (us vs : List ℕ)
      → end_op g ≡ Logged.goes next
      → Step (record { log = g; quotas = us ++ q ∷ vs }) (record { log = next; quotas = us ++ vs })
  commits :
      {g : Log} {qs : List ℕ}
      → g.committing ≡ true
      → Step (record { log = g; quotas = qs }) (record { log = committed g; quotas = qs })

-- After `initlog`, of a log of `size` blocks.
abbrev pub fresh : ℕ → ℕ → (ℕ → ℕ) → Calls
fresh start size block = record {
  log = record {
    start = start;
    size = size;
    outstanding = 0;
    committing = false;
    n = 0;
    block = block;
  };
  quotas = [];
}

pub data Reachable : Calls → Type 0 where
  at_start : (start size : ℕ) (block : ℕ → ℕ) → Reachable (fresh start size block)
  after : {s t : Calls} → Reachable s → Step s t → Reachable t

abbrev pub total : List ℕ → ℕ
total [] = 0
total (q ∷ qs) = q + total qs

pub total-++ : (us vs : List ℕ) → total (us ++ vs) ≡ total us + total vs
total-++ [] vs = omega arith
total-++ (u ∷ us) vs = omega (arith, total-++ us vs)

pub length-++ : (us vs : List ℕ) → length (us ++ vs) ≡ length us + length vs
length-++ [] vs = omega arith
length-++ (u ∷ us) vs = omega (arith, length-++ us vs)

-- No quota is above `MAXOPBLOCKS`.
abbrev pub Within : List ℕ → Type 0
Within [] = 0 ≤ max_op_blocks
Within (q ∷ qs) = (q ≤ max_op_blocks) × Within qs

pub Within-total : (qs : List ℕ) → Within qs → total qs ≤ length qs * max_op_blocks
Within-total [] w = omega arith
Within-total (q ∷ qs) (here, rest) = omega (arith, here, Within-total qs rest)

pub Within-less : (us vs : List ℕ) (q : ℕ) → Within (us ++ suc q ∷ vs) → Within (us ++ q ∷ vs)
Within-less [] vs q (here, rest) = (omega (arith, here), rest)
Within-less (u ∷ us) vs q (here, rest) = (here, Within-less us vs q rest)

pub Within-removed : (us vs : List ℕ) (q : ℕ) → Within (us ++ q ∷ vs) → Within (us ++ vs)
Within-removed [] vs q (here, rest) = rest
Within-removed (u ∷ us) vs q (here, rest) = (here, Within-removed us vs q rest)

-- No block is in the log twice.
pub record Reserved (s : Calls) : Type 0 where
  pub counted : s.log.outstanding ≡ length s.quotas
  pub few : s.log.outstanding ≤ 3
  pub within : Within s.quotas
  pub room : s.log.n + total s.quotas ≤ log_size
  pub alone : s.log.committing ≡ true → s.log.outstanding ≡ 0
  pub once : (i j : ℕ) → i < j → j < s.log.n → s.log.block i ≢ s.log.block j

-- The index at which `log_write` stops.
pub find_entry-first :
    (left i : ℕ) (g : Log) (blockno : ℕ)
    → (i ≤ find_entry left i g blockno)
      × (find_entry left i g blockno ≤ i + left)
      × ((k : ℕ) → i ≤ k → k < find_entry left i g blockno → g.block k ≢ blockno)
      × (find_entry left i g blockno < i + left → g.block (find_entry left i g blockno) ≡ blockno)
unfolding find_entry
find_entry-first zero i g blockno =
    (omega arith, omega arith, λ k a b e. omega (arith, a, b), λ h. absurd (omega (arith, h)))
find_entry-first (suc left) i g blockno =
    let (low, high, before, at) = find_entry-first left (i + 1) g blockno in
    elim (Bool-cases (g.block i == blockno)) [
      | inl hit ↦
          rw hit
            (omega arith, omega arith, λ k a b e. omega (arith, a, b), λ h. ground (arith, hit))
      | inr miss ↦ rw miss (
        omega (arith, low),
        omega (arith, high),
        λ k a b e. elim (Bool-cases (k == i)) [
          | inl first ↦ ground (arith, first, miss, e)
          | inr later ↦ before k (ground (arith, a, later)) b e
        ],
        λ h. at (omega (arith, h)),
      )
    ]

pub record_block-once :
    (g : Log) (blockno : ℕ)
    → ((i j : ℕ) → i < j → j < g.n → g.block i ≢ g.block j)
    → (i j : ℕ) → i < j
    → j < (record_block g blockno).n
    → (record_block g blockno).block i ≢ (record_block g blockno).block j
unfolding record_block update
record_block-once g blockno once i j lt inside e =
    let (low, high, before, at) = find_entry-first g.n 0 g blockno in
    let stop = find_entry g.n 0 g blockno in
    let same : (if i == stop then blockno else g.block i)
        ≡ (if j == stop then blockno else g.block j) =
      e in
    let here : j < (if stop == g.n then g.n + 1 else g.n) = inside in
    elim (Bool-cases (j == stop)) [
      | inl last ↦
          before i (omega arith) (ground (arith, lt, last)) (ground (arith, same, last, lt))
      | inr other ↦
          let early : j < g.n = ground (arith, here, other, high) in
          elim (Bool-cases (i == stop)) [
            | inl first ↦
                let known : g.block i ≡ blockno =
                  ap g.block (ground (arith, first)) ∙ at (ground (arith, first, lt, early)) in
                once i j lt early (known ∙ ground (arith, same, first, other))
            | inr neither ↦ once i j lt early (ground (arith, same, neither, other))
          ]
    ]
