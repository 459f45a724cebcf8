-- ===== src/Xv6/Log/Installed.antt =====
-- What `install_trans` of p5/xv6-public/log.c leaves on the disk, against the contents that the log
-- on the disk stands for.
use cs537_group_projects.Base.{
  update, update-apart, ℕ, zero, suc, ◌+◌, ◌-◌, ◌<◌, ◌≤◌, ◌≡◌, ◌≢◌, ◌⊎◌, inl, inr, some, true,
  false, refl, ap, ◌∙◌, ◌==◌, leb, arith, if◌then◌else◌, Bool-cases,
}
use cs537_group_projects.Xv6.Blocks.{Block, Machine, bread, bwrite}
use cs537_group_projects.Xv6.Log.{Log, install_from}

-- A block of the file system when the first `n` logged blocks count as installed.
unfoldable pub logged_from : ℕ → ℕ → (ℕ → ℕ) → (ℕ → Block) → ℕ → Block
logged_from zero start block disk x = disk x
logged_from (suc n) start block disk x =
    if block n == x then disk (start + n + 1) else logged_from n start block disk x

-- A block that is not the log's header nor one of its first `n`.
abbrev pub Home : ℕ → ℕ → ℕ → Type 0
Home start n x = (x < start) ⊎ (start + n < x)

-- The logged numbers are of blocks outside the log.
abbrev pub AllHome : ℕ → ℕ → (ℕ → ℕ) → Type 0
AllHome start n block = (i : ℕ) → i < n → Home start n (block i)

pub bread-bwrite_apart :
    (m : Machine) (b : ℕ) (d : Block) (x : ℕ) → x ≢ b → bread (bwrite m b d) x ≡ bread m x
unfolding bread bwrite
bread-bwrite_apart m b d x ne = elim (Bool-cases (m.power == 0)) [
  | inl off ↦ rw (off, update-apart m.cache b (some d) x ne) refl
  | inr on ↦ rw (on, update-apart m.cache b (some d) x ne, update-apart m.disk b d x ne) refl
]

-- A write with the power on and off.
pub bwrite-on :
    (m : Machine) (b : ℕ) (d : Block) → m.power ≢ 0 → (bwrite m b d).disk ≡ update m.disk b d
unfolding bwrite
bwrite-on m b d on = ground arith

pub bwrite-off : (m : Machine) (b : ℕ) (d : Block) → m.power ≡ 0 → (bwrite m b d).disk ≡ m.disk
unfolding bwrite
bwrite-off m b d off = ground arith

pub bwrite-power : (m : Machine) (b : ℕ) (d : Block) → (bwrite m b d).power ≡ m.power - 1
unfolding bwrite
bwrite-power m b d = refl

-- Without power the disk stays.
pub install_from-off :
    (left tail : ℕ) (g : Log) (m : Machine)
    → m.power ≡ 0
    → (install_from left tail g m).disk ≡ m.disk
unfolding install_from
install_from-off zero tail g m off = refl
install_from-off (suc left) tail g m off =
    let d = bread m (g.start + tail + 1) in
    let still : (bwrite m (g.block tail) d).power ≡ 0 =
      omega (arith, bwrite-power m (g.block tail) d) in
    install_from-off left (suc tail) g (bwrite m (g.block tail) d) still
    ∙ bwrite-off m (g.block tail) d off

pub install_from-power :
    (left tail : ℕ) (g : Log) (m : Machine) → (install_from left tail g m).power ≡ m.power - left
unfolding install_from bwrite
install_from-power zero tail g m = omega arith
install_from-power (suc left) tail g m = omega (
  arith,
  install_from-power left (suc tail) g (bwrite m (g.block tail) (bread m (g.start + tail + 1))),
)

-- A block that is not logged.
pub logged_from-other :
    (n start : ℕ) (block : ℕ → ℕ) (disk : ℕ → Block) (x : ℕ)
    → ((i : ℕ) → i < n → block i ≢ x)
    → logged_from n start block disk x ≡ disk x
unfolding logged_from
logged_from-other zero start block disk x other = refl
logged_from-other (suc n) start block disk x other =
    let ne = other n (omega arith) in
    let below : logged_from n start block disk x ≡ disk x =
      logged_from-other n start block disk x (λ i h. other i (omega (arith, h))) in
    ground (arith, ne, below)

-- The same numbers give the same contents.
pub logged_from-same :
    (n start : ℕ) (block other : ℕ → ℕ) (disk : ℕ → Block) (x : ℕ)
    → ((i : ℕ) → i < n → other i ≡ block i)
    → logged_from n start other disk x ≡ logged_from n start block disk x
unfolding logged_from
logged_from-same zero start block other disk x e = refl
logged_from-same (suc n) start block other disk x e =
    let below : logged_from n start other disk x ≡ logged_from n start block disk x =
      logged_from-same n start block other disk x (λ i h. e i (omega (arith, h))) in
    rw (e n (omega arith), below) refl

-- Installing again over a disk where the first `k` are installed already.
pub logged_from-again :
    (n k start : ℕ) (block : ℕ → ℕ) (disk after : ℕ → Block) (x : ℕ)
    → k ≤ n
    → ((i : ℕ) → i < n → after (start + i + 1) ≡ disk (start + i + 1))
    → after x ≡ logged_from k start block disk x
    → logged_from n start block after x ≡ logged_from n start block disk x
unfolding logged_from
logged_from-again zero k start block disk after x le logs now =
    let none_yet : k ≡ 0 = omega arith in now ∙ ap (λ k. logged_from k start block disk x) none_yet
logged_from-again (suc n) k start block disk after x le logs now =
    elim (Bool-cases (block n == x)) [
      | inl hit ↦ rw hit (logs n (omega arith))
      | inr miss ↦
          let fewer = λ (i : ℕ) (h : i < n). logs i (omega (arith, h)) in
          let below : logged_from n start block after x ≡ logged_from n start block disk x =
            elim (Bool-cases (leb k n)) [
              | inl early ↦ logged_from-again n k start block disk after x (ground arith) fewer now
              | inr late ↦
                  let all : k ≡ suc n = ground arith in
                  logged_from-again n n start block disk after x (omega arith) fewer
                    (now ∙ ap (λ k. logged_from k start block disk x) all ∙ rw miss refl)
            ] in
          rw miss below
    ]

-- The disk after `left` more rounds: `count` blocks are installed, and all of them with the power.
abbrev pub Installs : Machine → ℕ → ℕ → ℕ → Log → (ℕ → Block) → Type 0
Installs after power left tail g disk =
    (count : ℕ) × (count ≤ tail + left)
    × ((x : ℕ) → after.disk x ≡ logged_from count g.start g.block disk x)
    × (left ≤ power → count ≡ tail + left)

installed_step :
    (tail start : ℕ) (block : ℕ → ℕ) (disk now : ℕ → Block) (d : Block) (x : ℕ)
    → now x ≡ logged_from tail start block disk x
    → d ≡ disk (start + tail + 1)
    → update now (block tail) d x ≡ logged_from (suc tail) start block disk x
unfolding update logged_from
installed_step tail start block disk now d x e f = elim (Bool-cases (block tail == x)) [
  | inl hit ↦ let same : (x == block tail) ≡ true = ground arith in rw (hit, same) f
  | inr miss ↦ let apart : (x == block tail) ≡ false = ground arith in rw (miss, apart) e
]

pub install_from-Installs :
    (left tail : ℕ) (g : Log) (m : Machine) (disk : ℕ → Block)
    → tail + left ≤ g.n
    → AllHome g.start g.n g.block
    → ((i : ℕ) → i < g.n → bread m (g.start + i + 1) ≡ disk (g.start + i + 1))
    → ((x : ℕ) → m.disk x ≡ logged_from tail g.start g.block disk x)
    → Installs (install_from left tail g m) m.power left tail g disk
unfolding install_from
install_from-Installs zero tail g m disk le homes reads now =
    (tail, omega arith, now, λ h. omega arith)
install_from-Installs (suc left) tail g m disk le homes reads now =
    let d = bread m (g.start + tail + 1) in
    let next = bwrite m (g.block tail) d in
    elim (Bool-cases (m.power == 0)) [
      | inl off ↦
          let no_power : m.power ≡ 0 = ground arith in
          let still : next.power ≡ 0 = omega (arith, bwrite-power m (g.block tail) d) in
          (
            tail,
            omega arith,
            λ x.
                ap (λ t. t x)
                  (install_from-off left (suc tail) g next still
                    ∙ bwrite-off m (g.block tail) d no_power)
                ∙ now x,
            λ h. absurd (omega (arith, h, no_power)),
          )
      | inr on ↦
          let home = homes tail (omega arith) in
          let (count, below, here, all) =
            install_from-Installs left (suc tail) g next disk (omega arith) homes
              (λ i h.
                bread-bwrite_apart m (g.block tail) d (g.start + i + 1)
                  (λ e. ground (arith, e, home, h))
                ∙ reads i h)
              (λ x.
                ap (λ t. t x) (bwrite-on m (g.block tail) d (ground arith))
                ∙ installed_step tail g.start g.block disk m.disk d x (now x)
                    (reads tail (omega arith))) in
          (
            count,
            omega arith,
            here,
            λ h. omega (arith, all (omega (arith, h, bwrite-power m (g.block tail) d))),
          )
    ]
