-- ===== src/Wfs/Outside.antt =====
-- Changes of the disk image of p7 that keep within a range of addresses.
use cs537_group_projects.Base.{
  ℕ, ◌+◌, ◌%◌, ◌<◌, ◌≤◌, ◌≡◌, ◌∙◌, ap, ◌⊎◌, inl, List, [], ◌∷◌, true, ◌==◌, if◌then◌else◌, arith,
  length,
}
use cs537_group_projects.Wfs.Disk.{
  Disk, byte, load_int, store_int, load_long, store_long, clear_bytes, store_int-apart,
  store_long-apart,
}
use cs537_group_projects.Wfs.Inode.{has_name, store_name}

-- Nothing changes outside [lo, hi).
abbrev pub Outside : ℕ → ℕ → Disk → Disk → Type 0
Outside lo hi disk after = (x : ℕ) → (x < lo) ⊎ (hi ≤ x) → after x ≡ disk x

pub Outside-trans :
    (lo hi : ℕ) (disk mid after : Disk)
    → Outside lo hi disk mid
    → Outside lo hi mid after
    → Outside lo hi disk after
Outside-trans lo hi disk mid after f g x h = g x h ∙ f x h

pub Outside-wider :
    (lo hi low high : ℕ) (disk after : Disk)
    → low ≤ lo
    → hi ≤ high
    → Outside lo hi disk after
    → Outside low high disk after
Outside-wider lo hi low high disk after h k f x off = f x (ground (arith, off))

pub store_int-Outside : (disk : Disk) (a v : ℕ) → Outside a (a + 4) disk (store_int disk a v)
store_int-Outside disk a v x h = store_int-apart disk a v x h

pub store_long-Outside : (disk : Disk) (a v : ℕ) → Outside a (a + 8) disk (store_long disk a v)
store_long-Outside disk a v x h = store_long-apart disk a v x h

pub clear_bytes-Outside : (disk : Disk) (a n : ℕ) → Outside a (a + n) disk (clear_bytes disk a n)
unfolding clear_bytes
clear_bytes-Outside disk a n x h = ground arith

pub load_int-Outside :
    (lo hi : ℕ) (disk after : Disk) (a : ℕ)
    → Outside lo hi disk after
    → (a + 4 ≤ lo) ⊎ (hi ≤ a)
    → load_int after a ≡ load_int disk a
unfolding load_int
load_int-Outside lo hi disk after a f h = rw (
  f a (ground (arith, h)),
  f (a + 1) (ground (arith, h)),
  f (a + 2) (ground (arith, h)),
  f (a + 3) (ground (arith, h)),
)

pub load_long-Outside :
    (lo hi : ℕ) (disk after : Disk) (a : ℕ)
    → Outside lo hi disk after
    → (a + 8 ≤ lo) ⊎ (hi ≤ a)
    → load_long after a ≡ load_long disk a
unfolding load_long
load_long-Outside lo hi disk after a f h = omega (
  arith,
  load_int-Outside lo hi disk after a f (ground (arith, h)),
  load_int-Outside lo hi disk after (a + 4) f (ground (arith, h)),
)

-- Names, with the 0 behind them.
pub store_name-Outside :
    (disk : Disk) (a : ℕ) (name : List ℕ)
    → Outside a (a + length name + 1) disk (store_name disk a name)
unfolding store_name
store_name-Outside disk a [] x h = ground arith
store_name-Outside disk a (c ∷ cs) x h =
    store_name-Outside (λ y. if y == a then c else disk y) (a + 1) cs x (ground arith)
    ∙ ground arith

pub has_name-Outside :
    (lo hi : ℕ) (disk after : Disk) (a : ℕ) (name : List ℕ)
    → Outside lo hi disk after
    → (a + length name + 1 ≤ lo) ⊎ (hi ≤ a)
    → has_name after a name ≡ has_name disk a name
unfolding has_name
has_name-Outside lo hi disk after a [] f h = ap (λ v. v % 256 == 0) (f a (ground (arith, h)))
has_name-Outside lo hi disk after a (c ∷ cs) f h =
    rw (f a (ground (arith, h)), has_name-Outside lo hi disk after (a + 1) cs f (ground (arith, h)))

-- The bytes of a name: not 0, and below 256.
abbrev pub IsText : List ℕ → Type 0
IsText [] = Unit
IsText (c ∷ cs) = (0 < c) × (c < 256) × IsText cs

pub has_name-store_name :
    (disk : Disk) (a : ℕ) (name : List ℕ)
    → IsText name
    → has_name (store_name disk a name) a name ≡ true
unfolding has_name store_name
has_name-store_name disk a [] t = ground arith
has_name-store_name disk a (c ∷ cs) t =
    let rest : Disk = λ y. if y == a then c else disk y in
    let kept : store_name rest (a + 1) cs a ≡ c =
      store_name-Outside rest (a + 1) cs a (inl (omega arith)) ∙ ground arith in
    let first : (byte (store_name rest (a + 1) cs) a == c) ≡ true = ground (arith, kept) in
    rw first (has_name-store_name rest (a + 1) cs t.2)
