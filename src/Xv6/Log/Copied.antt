-- ===== src/Xv6/Log/Copied.antt =====
-- What `write_log` of p5/xv6-public/log.c writes and keeps.
use cs537_group_projects.Base.{
  update, update-there, update-apart, ℕ, zero, suc, ◌+◌, ◌-◌, ◌<◌, ◌≤◌, ◌≡◌, ◌≢◌, ◌⊎◌, inl, inr,
  refl, sym, ap, ◌∙◌, ◌==◌, arith, Bool-cases, false,
}
use cs537_group_projects.Xv6.Blocks.{Block, Machine, bread, bwrite, buffer_data}
use cs537_group_projects.Xv6.Log.{Log, write_log_from}
use cs537_group_projects.Xv6.Log.Installed.{
  logged_from, AllHome, bread-bwrite_apart, bwrite-on, bwrite-off, bwrite-power,
}

pub bread-bwrite_on :
    (m : Machine) (b : ℕ) (d : Block) (x : ℕ)
    → m.power ≢ 0
    → bread m x ≡ m.disk x
    → bread (bwrite m b d) x ≡ (bwrite m b d).disk x
unfolding bread bwrite update buffer_data
bread-bwrite_on m b d x on clean = elim (Bool-cases (x == b)) [
  | inl here ↦ let power : (m.power == 0) ≡ false = ground arith in rw (power, here) refl
  | inr apart ↦ let power : (m.power == 0) ≡ false = ground arith in rw (power, apart) clean
]

pub write_log_from-power :
    (left tail : ℕ) (g : Log) (m : Machine) → (write_log_from left tail g m).power ≡ m.power - left
unfolding write_log_from
write_log_from-power zero tail g m = omega arith
write_log_from-power (suc left) tail g m =
    let d = bread m (g.block tail) in
    omega (
      arith,
      bwrite-power m (g.start + tail + 1) d,
      write_log_from-power left (suc tail) g (bwrite m (g.start + tail + 1) d),
    )

pub bwrite-kept :
    (m : Machine) (b : ℕ) (d : Block) (x : ℕ) → x ≢ b → (bwrite m b d).disk x ≡ m.disk x
bwrite-kept m b d x ne = elim (Bool-cases (m.power == 0)) [
  | inl off ↦ ap (λ t. t x) (bwrite-off m b d (ground (arith, off)))
  | inr on ↦
      ap (λ t. t x) (bwrite-on m b d (λ e. ground (arith, on, e))) ∙ update-apart m.disk b d x ne
]

-- The blocks that `write_log` does not write.
pub write_log_from-kept :
    (left tail : ℕ) (g : Log) (m : Machine) (x : ℕ)
    → (x ≤ g.start + tail) ⊎ (g.start + tail + left < x)
    → ((write_log_from left tail g m).disk x ≡ m.disk x)
      × (bread (write_log_from left tail g m) x ≡ bread m x)
unfolding write_log_from
write_log_from-kept zero tail g m x outside = (refl, refl)
write_log_from-kept (suc left) tail g m x outside =
    let d = bread m (g.block tail) in
    let next = bwrite m (g.start + tail + 1) d in
    let ne : x ≢ g.start + tail + 1 = λ e. ground (arith, outside, e) in
    let (on_disk, read) = write_log_from-kept left (suc tail) g next x (ground (arith, outside)) in
    (
      on_disk ∙ bwrite-kept m (g.start + tail + 1) d x ne,
      read ∙ bread-bwrite_apart m (g.start + tail + 1) d x ne,
    )

-- With the power for it, a block that reads as it is on the disk goes on doing so.
pub write_log_from-clean :
    (left tail : ℕ) (g : Log) (m : Machine) (x : ℕ)
    → left ≤ m.power
    → bread m x ≡ m.disk x
    → bread (write_log_from left tail g m) x ≡ (write_log_from left tail g m).disk x
unfolding write_log_from
write_log_from-clean zero tail g m x enough clean = clean
write_log_from-clean (suc left) tail g m x enough clean =
    let d = bread m (g.block tail) in
    write_log_from-clean left (suc tail) g (bwrite m (g.start + tail + 1) d) x
      (omega (arith, enough, bwrite-power m (g.start + tail + 1) d))
      (bread-bwrite_on m (g.start + tail + 1) d x (λ e. omega (arith, e, enough)) clean)

-- The log has the cached contents of each logged block.
pub write_log_from-copied :
    (left tail i : ℕ) (g : Log) (m : Machine)
    → tail + left ≤ g.n
    → left ≤ m.power
    → AllHome g.start g.n g.block
    → tail ≤ i
    → i < tail + left
    → (write_log_from left tail g m).disk (g.start + i + 1) ≡ bread m (g.block i)
unfolding write_log_from
write_log_from-copied zero tail i g m le enough homes from below = absurd (omega arith)
write_log_from-copied (suc left) tail i g m le enough homes from below =
    let d = bread m (g.block tail) in
    let next = bwrite m (g.start + tail + 1) d in
    elim (Bool-cases (i == tail)) [
      | inl here ↦
          let same : i ≡ tail = ground (arith, here) in
          (write_log_from-kept left (suc tail) g next (g.start + i + 1)
            (inl (omega (arith, same)))).0
          ∙ ap (λ i. next.disk (g.start + i + 1)) same
          ∙ ap (λ t. t (g.start + tail + 1))
              (bwrite-on m (g.start + tail + 1) d (λ e. omega (arith, e, enough)))
          ∙ update-there m.disk (g.start + tail + 1) d
          ∙ ap (λ i. bread m (g.block i)) (sym same)
      | inr later ↦
          write_log_from-copied left (suc tail) i g next (omega arith)
            (omega (arith, enough, bwrite-power m (g.start + tail + 1) d)) homes
            (ground (arith, later)) (omega arith)
          ∙ bread-bwrite_apart m (g.start + tail + 1) d (g.block i)
              (λ e. ground (arith, homes i (omega arith), e))
    ]

-- Installing the copies gives the copied contents.
pub logged_from-copied :
    (k start : ℕ) (block : ℕ → ℕ) (disk value : ℕ → Block) (x : ℕ)
    → ((i : ℕ) → i < k → disk (start + i + 1) ≡ value (block i))
    → (((i : ℕ) → i < k → block i ≢ x) → disk x ≡ value x)
    → logged_from k start block disk x ≡ value x
unfolding logged_from
logged_from-copied zero start block disk value x copies other =
    other (λ i h. absurd (omega (arith, h)))
logged_from-copied (suc k) start block disk value x copies other =
    elim (Bool-cases (block k == x)) [
      | inl hit ↦
          let same : block k ≡ x = ground (arith, hit) in
          rw hit (copies k (omega arith) ∙ ap value same)
      | inr miss ↦ rw miss (
          logged_from-copied k start block disk value x (λ i h. copies i (omega (arith, h)))
            (λ o. other (λ i h e. elim (Bool-cases (i == k)) [
              | inl last ↦ ground (arith, miss, e, last)
              | inr before ↦ o i (ground (arith, h, before)) e
            ])))
    ]
