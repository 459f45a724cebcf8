-- ===== src/Wfs/Bitmap/Search.antt =====
-- The search of `allocate_block` in p7/wfs.c: it finds the first bit of 0.
use Prim.Native.Nat.{bit_and}
use native.Mathlib.Nat.{one-le-pow}
use cs537_group_projects.Base.{
  ltb, ℕ, zero, suc, ◌+◌, ◌-◌, ◌*◌, ◌/◌, ◌%◌, ◌^◌, ◌<◌, ◌≤◌, ◌≡◌, refl, sym, ◌∙◌, ap, ap₂, Option,
  none, some, ◌==◌, if◌then◌else◌, arith, Bool-cases, inl, inr, ◌⊎◌, subst,
}
use cs537_group_projects.Wfs.Bits.{bit, bit-suc, and-bit, bit-not}
use cs537_group_projects.Wfs.Disk.{Disk, load_int, load_int-lt}
use cs537_group_projects.Wfs.Bitmap.{complement, find_col, find_row, allocate_block}

-- The bit of a block in the bitmap at an offset: 1 where the block is in use.
abbrev pub block_bit : Disk → ℕ → ℕ → ℕ
block_bit disk addr n = bit (load_int disk (addr + n / 32 * 4)) (n % 32)

-- The first place of 0 in a row of bits, from `lo` up to `hi`.
abbrev pub IsFirstZero : (ℕ → ℕ) → ℕ → ℕ → Option ℕ → Type 0
IsFirstZero bits lo hi none = (m : ℕ) → lo ≤ m → m < hi → bits m ≡ 1
IsFirstZero bits lo hi (some n) =
    (lo ≤ n) × (n < hi) × (bits n ≡ 0) × ((m : ℕ) → lo ≤ m → m < n → bits m ≡ 1)

-- The tests of the code, read as bits.
col_test :
    (old col : ℕ)
    → old < 2 ^ 32
    → col < 32
    → bit_and (2 ^ col) (complement old) ≡ 2 ^ col * (1 - bit old col)
col_test old col h lt =
    and-bit col (complement old) ∙ ap (λ t. 2 ^ col * t) (bit-not 32 old col h lt)

zero_bit : (col : ℕ) → bit 0 col ≡ 0
zero_bit zero = refl
zero_bit (suc col) = bit-suc 0 col ∙ zero_bit col

full_row : (old col : ℕ) → old < 2 ^ 32 → col < 32 → complement old ≡ 0 → bit old col ≡ 1
full_row old col h lt e =
    omega (arith, bit-not 32 old col h lt, ap (λ t. bit t col) e, zero_bit col)

eq_or_past : (lo m : ℕ) → lo ≤ m → (lo ≡ m) ⊎ (lo + 1 ≤ m)
eq_or_past lo m h = elim (Bool-cases (lo == m)) [
  | inl e ↦ inl (ground arith)
  | inr e ↦ inr (ground arith)
]

-- One more bit that is set in front.
set_before :
    (bits : ℕ → ℕ) (lo hi : ℕ)
    → bits lo ≡ 1
    → ((m : ℕ) → lo + 1 ≤ m → m < hi → bits m ≡ 1)
    → (m : ℕ) → lo ≤ m
    → m < hi
    → bits m ≡ 1
set_before bits lo hi one h m a b = elim (eq_or_past lo m a) [
  | inl e ↦ ap bits (sym e) ∙ one
  | inr past ↦ h m past b
]

set_in_front :
    (bits : ℕ → ℕ) (lo hi : ℕ) (r : Option ℕ)
    → bits lo ≡ 1
    → IsFirstZero bits (lo + 1) hi r
    → IsFirstZero bits lo hi r
set_in_front bits lo hi none one h = set_before bits lo hi one h
set_in_front bits lo hi (some n) one (above, below, clear, before) =
    (omega arith, below, clear, set_before bits lo n one before)

bit_cases : (x c : ℕ) → (bit x c ≡ 1) ⊎ (bit x c ≡ 0)
bit_cases x c = elim (Bool-cases (bit x c == 1)) [
  | inl e ↦ inl (ground arith)
  | inr e ↦ inr (ground arith)
]

-- The round of a column that is set, and of one that is clear.
find_col_set :
    (n col old : ℕ)
    → old < 2 ^ 32
    → col < 32
    → bit old col ≡ 1
    → find_col (suc n) col old ≡ find_col n (col + 1) old
unfolding find_col
find_col_set n col old h lt set =
    let test : bit_and (2 ^ col) (complement old) ≡ 0 =
      col_test old col h lt ∙ ap (λ (b : ℕ). 2 ^ col * (1 - b)) set ∙ omega arith in
    ap (λ (t : ℕ). if t == 0 then find_col n (col + 1) old else some col) test

find_col_clear :
    (n col old : ℕ)
    → old < 2 ^ 32
    → col < 32
    → bit old col ≡ 0
    → find_col (suc n) col old ≡ some col
unfolding find_col
find_col_clear n col old h lt clear =
    let test : bit_and (2 ^ col) (complement old) ≡ 2 ^ col =
      col_test old col h lt ∙ ap (λ (b : ℕ). 2 ^ col * (1 - b)) clear ∙ omega arith in
    ground (arith, test, one-le-pow col 2 (omega arith))

find_col-IsFirstZero :
    (n col old : ℕ)
    → old < 2 ^ 32
    → col + n ≡ 32
    → IsFirstZero (bit old) col 32 (find_col n col old)
unfolding find_col
find_col-IsFirstZero zero col old h e = λ m a b. absurd (omega arith)
find_col-IsFirstZero (suc n) col old h e =
    let lt : col < 32 = omega arith in
    elim (bit_cases old col) [
      | inl set ↦ subst (IsFirstZero (bit old) col 32) (sym (find_col_set n col old h lt set)) (
          set_in_front (bit old) col 32 (find_col n (col + 1) old) set
            (find_col-IsFirstZero n (col + 1) old h (omega arith)))
      | inr clear ↦
          subst (IsFirstZero (bit old) col 32) (sym (find_col_clear n col old h lt clear))
            (omega arith, lt, clear, λ m a b. absurd (omega arith))
    ]

-- A row of the bitmap within all its bits.
row_bit :
    (disk : Disk) (addr row m : ℕ)
    → row * 32 ≤ m
    → m < row * 32 + 32
    → block_bit disk addr m ≡ bit (load_int disk (addr + row * 4)) (m - row * 32)
row_bit disk addr row m a b =
    let which : m / 32 ≡ row = omega arith in
    let where_in : m % 32 ≡ m - row * 32 = omega arith in
    ap₂ (λ r c. bit (load_int disk (addr + r * 4)) c) which where_in

row_full :
    (disk : Disk) (addr row : ℕ)
    → ((c : ℕ) → 0 ≤ c → c < 32 → bit (load_int disk (addr + row * 4)) c ≡ 1)
    → (m : ℕ) → row * 32 ≤ m
    → m < row * 32 + 32
    → block_bit disk addr m ≡ 1
row_full disk addr row full m a b =
    row_bit disk addr row m a b ∙ full (m - row * 32) (omega arith) (omega arith)

-- A row without a zero in front of the others.
row_in_front :
    (bits : ℕ → ℕ) (lo mid hi : ℕ)
    → ((m : ℕ) → lo ≤ m → m < mid → bits m ≡ 1)
    → ((m : ℕ) → mid ≤ m → m < hi → bits m ≡ 1)
    → (m : ℕ) → lo ≤ m
    → m < hi
    → bits m ≡ 1
row_in_front bits lo mid hi first second m a b = elim (Bool-cases (ltb m mid)) [
  | inl e ↦ first m a (ground arith)
  | inr e ↦ second m (ground arith) b
]

rows_in_front :
    (bits : ℕ → ℕ) (lo mid hi : ℕ) (r : Option ℕ)
    → lo ≤ mid
    → ((m : ℕ) → lo ≤ m → m < mid → bits m ≡ 1)
    → IsFirstZero bits mid hi r
    → IsFirstZero bits lo hi r
rows_in_front bits lo mid hi none le full h = row_in_front bits lo mid hi full h
rows_in_front bits lo mid hi (some n) le full (above, below, clear, before) =
    (omega arith, below, clear, row_in_front bits lo mid n full before)

-- What the search of one row finds, with what the rows behind it hold.
after_row :
    (disk : Disk) (addr row hi : ℕ) (found next : Option ℕ)
    → row * 32 + 32 ≤ hi
    → IsFirstZero (bit (load_int disk (addr + row * 4))) 0 32 found
    → IsFirstZero (block_bit disk addr) (row * 32 + 32) hi next
    → IsFirstZero
        (block_bit disk addr)
        (row * 32)
        hi
        (elim found [ none ↦ next | some col ↦ some (row * 32 + col) ])
after_row disk addr row hi none next le full rest =
    rows_in_front (block_bit disk addr) (row * 32) (row * 32 + 32) hi next (omega arith)
      (row_full disk addr row full) rest
after_row disk addr row hi (some col) next le (above, below, clear, before) rest = (
  omega arith,
  omega arith,
  row_bit disk addr row (row * 32 + col) (omega arith) (omega arith)
      ∙ ap (bit (load_int disk (addr + row * 4))) (omega arith)
      ∙ clear,
  λ m a b.
      row_bit disk addr row m a (omega arith) ∙ before (m - row * 32) (omega arith) (omega arith),
)

-- The rows from `row` on, which are the blocks from `lo` up to `hi`.
find_row-IsFirstZero :
    (n row lo hi : ℕ) (disk : Disk) (addr : ℕ)
    → lo ≡ row * 32
    → hi ≡ lo + n * 32
    → IsFirstZero (block_bit disk addr) (row * 32) hi (find_row n row disk addr)
unfolding find_row
find_row-IsFirstZero zero row lo hi disk addr p q = λ m a b. absurd (omega arith)
find_row-IsFirstZero (suc n) row lo hi disk addr p q =
    let old = load_int disk (addr + row * 4) in
    let small = load_int-lt disk (addr + row * 4) in
    let rest : IsFirstZero (block_bit disk addr) (row * 32 + 32) hi
        (find_row n (row + 1) disk addr) =
      subst (λ from. IsFirstZero (block_bit disk addr) from hi (find_row n (row + 1) disk addr))
        (omega arith)
        (find_row-IsFirstZero n (row + 1) (lo + 32) hi disk addr (omega arith) (omega arith)) in
    elim (Bool-cases (complement old == 0)) [
      | inl e ↦ rw e (
          after_row disk addr row hi none (find_row n (row + 1) disk addr) (omega arith)
            (λ c a b. full_row old c small b (ground arith)) rest)
      | inr e ↦ rw e (
          after_row disk addr row hi (find_col 32 0 old) (find_row n (row + 1) disk addr)
            (omega arith) (find_col-IsFirstZero 32 0 old small refl) rest)
    ]

-- `allocate_block` returns the first block of the bitmap whose bit is clear, among the blocks of
-- the whole rows of 32 in `size`, and -1 only where all of their bits are set.
pub allocate_block-IsFirstZero :
    (disk : Disk) (addr size : ℕ)
    → IsFirstZero (block_bit disk addr) 0 (size / 32 * 32) (allocate_block disk addr size)
unfolding allocate_block
allocate_block-IsFirstZero disk addr size =
    find_row-IsFirstZero (size / 32) 0 0 (size / 32 * 32) disk addr refl (omega arith)
