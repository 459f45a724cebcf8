-- ===== src/Wfs/Disk.antt =====
-- The disk image that p7/wfs.c maps into memory: bytes, and the `int`s that the code reads and
-- writes in them by `memcpy`, lowest byte first, as bit patterns.
use cs537_group_projects.Base.{
  ◌-◌, inl, ltb, leb, ap₂, ◌∙◌, ℕ, ◌+◌, ◌*◌, ◌/◌, ◌%◌, ◌^◌, ◌<◌, ◌≤◌, ◌≡◌, ◌⊎◌, arith, ◌==◌,
  if◌then◌else◌,
}

abbrev pub Disk : Type 0
Disk = ℕ → ℕ

unfoldable pub load_int : Disk → ℕ → ℕ
load_int disk a =
    disk a % 256
    + 256 * (disk (a + 1) % 256)
    + 65536 * (disk (a + 2) % 256)
    + 16777216 * (disk (a + 3) % 256)

unfoldable pub store_int : Disk → ℕ → ℕ → Disk
store_int disk a v x =
    if x == a
    then v % 256
    else (if x == a + 1
        then v / 256 % 256
        else (if x == a + 2
            then v / 65536 % 256
            else (if x == a + 3 then v / 16777216 % 256 else disk x)))

pub load_int-lt : (disk : Disk) (a : ℕ) → load_int disk a < 2 ^ 32
unfolding load_int
load_int-lt disk a = omega arith

stored :
    (disk : Disk) (a v : ℕ)
    → (store_int disk a v a ≡ v % 256)
      × (store_int disk a v (a + 1) ≡ v / 256 % 256)
      × (store_int disk a v (a + 2) ≡ v / 65536 % 256)
      × (store_int disk a v (a + 3) ≡ v / 16777216 % 256)
unfolding store_int
stored disk a v = (ground arith, ground arith, ground arith, ground arith)

pub load_int-store_int : (disk : Disk) (a v : ℕ) → v < 2 ^ 32 → load_int (store_int disk a v) a ≡ v
unfolding load_int
load_int-store_int disk a v h =
    let (first, second, third, fourth) = stored disk a v in
    rw (first, second, third, fourth) (omega arith)

-- A byte outside the four.
pub store_int-apart :
    (disk : Disk) (a v x : ℕ) → (x < a) ⊎ (a + 4 ≤ x) → store_int disk a v x ≡ disk x
unfolding store_int
store_int-apart disk a v x h = ground arith

pub load_int-apart :
    (disk : Disk) (a v b : ℕ)
    → (b + 4 ≤ a) ⊎ (a + 4 ≤ b)
    → load_int (store_int disk a v) b ≡ load_int disk b
unfolding load_int
load_int-apart disk a v b h = rw (
  store_int-apart disk a v b (omega arith),
  store_int-apart disk a v (b + 1) (omega arith),
  store_int-apart disk a v (b + 2) (omega arith),
  store_int-apart disk a v (b + 3) (omega arith),
)

-- Eight bytes, as a `size_t`, an `off_t` or a `time_t`.
unfoldable pub store_long : Disk → ℕ → ℕ → Disk
store_long disk a v = store_int (store_int disk a (v % 2 ^ 32)) (a + 4) (v / 2 ^ 32)

unfoldable pub load_long : Disk → ℕ → ℕ
load_long disk a = load_int disk a + 2 ^ 32 * load_int disk (a + 4)

-- A byte, as an `unsigned char`.
abbrev pub byte : Disk → ℕ → ℕ
byte disk a = disk a % 256

-- `memset` to 0 of `n` bytes, and `memcpy` of `n` bytes of `buf` from its byte `k` on.
unfoldable pub clear_bytes : Disk → ℕ → ℕ → Disk
clear_bytes disk a n x = if leb a x then (if ltb x (a + n) then 0 else disk x) else disk x

unfoldable pub copy_bytes : Disk → ℕ → ℕ → (ℕ → ℕ) → ℕ → Disk
copy_bytes disk a n buf k x =
    if leb a x then (if ltb x (a + n) then buf (k + (x - a)) else disk x) else disk x

pub load_int-store_long :
    (disk : Disk) (a v b : ℕ)
    → (b + 4 ≤ a) ⊎ (a + 8 ≤ b)
    → load_int (store_long disk a v) b ≡ load_int disk b
unfolding store_long
load_int-store_long disk a v b h =
    load_int-apart (store_int disk a (v % 2 ^ 32)) (a + 4) (v / 2 ^ 32) b (ground arith)
    ∙ load_int-apart disk a (v % 2 ^ 32) b (ground arith)

pub load_long-store_long :
    (disk : Disk) (a v : ℕ) → v < 2 ^ 64 → load_long (store_long disk a v) a ≡ v
unfolding load_long store_long
load_long-store_long disk a v h =
    let low =
      load_int-apart (store_int disk a (v % 2 ^ 32)) (a + 4) (v / 2 ^ 32) a (inl (omega arith)) in
    omega (
      arith,
      low,
      load_int-store_int disk a (v % 2 ^ 32) (omega arith),
      load_int-store_int (store_int disk a (v % 2 ^ 32)) (a + 4) (v / 2 ^ 32) (omega arith),
    )

pub load_long-store_long_apart :
    (disk : Disk) (a v b : ℕ)
    → (b + 8 ≤ a) ⊎ (a + 8 ≤ b)
    → load_long (store_long disk a v) b ≡ load_long disk b
unfolding load_long
load_long-store_long_apart disk a v b h =
    ap₂ (λ lo hi. lo + 2 ^ 32 * hi) (load_int-store_long disk a v b (ground arith))
      (load_int-store_long disk a v (b + 4) (ground arith))

pub store_long-apart :
    (disk : Disk) (a v x : ℕ) → (x < a) ⊎ (a + 8 ≤ x) → store_long disk a v x ≡ disk x
unfolding store_long
store_long-apart disk a v x h =
    store_int-apart (store_int disk a (v % 2 ^ 32)) (a + 4) (v / 2 ^ 32) x (ground arith)
    ∙ store_int-apart disk a (v % 2 ^ 32) x (ground arith)
