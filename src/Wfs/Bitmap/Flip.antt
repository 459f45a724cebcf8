-- ===== src/Wfs/Bitmap/Flip.antt =====
-- What `flip_bit_in_bitmap` of p7/wfs.c changes, and the next search after it.
use Prim.Native.Nat.{bit_xor}
use cs537_group_projects.Base.{
  ltb, ℕ, ◌+◌, ◌-◌, ◌*◌, ◌/◌, ◌%◌, ◌^◌, ◌<◌, ◌≤◌, ◌≡◌, sym, ◌∙◌, ap, some, ◌==◌, if◌then◌else◌,
  arith, Bool-cases, inl, inr, ◌⊎◌, subst,
}
use cs537_group_projects.Wfs.Bits.{bit, bit-xor, xor-lt}
use cs537_group_projects.Wfs.Disk.{
  Disk, load_int, store_int, load_int-lt, load_int-store_int, load_int-apart, store_int-apart,
}
use cs537_group_projects.Wfs.Bitmap.{allocate_block, flip_bit_in_bitmap}
use cs537_group_projects.Wfs.Bitmap.Search.{block_bit, IsFirstZero, allocate_block-IsFirstZero}

same_test : (n m : ℕ) → m / 32 ≡ n / 32 → (n % 32 == m % 32) ≡ (n == m)
same_test n m row = elim (Bool-cases (n == m)) [ inl e ↦ ground arith | inr e ↦ ground arith ]

place_test :
    (n m b : ℕ)
    → m / 32 ≡ n / 32
    → (if n % 32 == m % 32 then 1 - b else b) ≡ (if n == m then 1 - b else b)
place_test n m b row = ap (λ t. if t then 1 - b else b) (same_test n m row)

-- After `flip_bit_in_bitmap` the bit of the block is turned over, and the bit of any other block
-- is as it was.
pub block_bit-flip :
    (disk : Disk) (addr n m : ℕ)
    → block_bit (flip_bit_in_bitmap disk addr n) addr m
      ≡ (if n == m then 1 - block_bit disk addr m else block_bit disk addr m)
unfolding flip_bit_in_bitmap
block_bit-flip disk addr n m =
    let at = addr + n / 32 * 4 in
    let word = bit_xor (load_int disk at) (2 ^ (n % 32)) in
    let small : word < 2 ^ 32 =
      xor-lt (load_int disk at) (n % 32) 32 (load_int-lt disk at) (omega arith) in
    elim (Bool-cases (n / 32 == m / 32)) [
      | inl e ↦
          let row : m / 32 ≡ n / 32 = ground arith in
          let same : block_bit disk addr m ≡ bit (load_int disk at) (m % 32) =
            ap (λ r. bit (load_int disk (addr + r * 4)) (m % 32)) row in
          ap (λ r. bit (load_int (store_int disk at word) (addr + r * 4)) (m % 32)) row
          ∙ ap (λ w. bit w (m % 32)) (load_int-store_int disk at word small)
          ∙ bit-xor (load_int disk at) (n % 32) (m % 32)
          ∙ ap (λ b. if n % 32 == m % 32 then 1 - b else b) (sym same)
          ∙ place_test n m (block_bit disk addr m) row
      | inr e ↦
          ap (λ old. bit old (m % 32))
            (load_int-apart disk at word (addr + m / 32 * 4) (ground arith))
          ∙ ground arith
    ]

-- `flip_bit_in_bitmap` changes no byte outside the row of the block.
pub flip-apart :
    (disk : Disk) (addr n x : ℕ)
    → (x < addr + n / 32 * 4) ⊎ (addr + n / 32 * 4 + 4 ≤ x)
    → flip_bit_in_bitmap disk addr n x ≡ disk x
unfolding flip_bit_in_bitmap
flip-apart disk addr n x h =
    store_int-apart disk (addr + n / 32 * 4)
      (bit_xor (load_int disk (addr + n / 32 * 4)) (2 ^ (n % 32))) x h

zero_behind :
    (bits flipped : ℕ → ℕ) (n m : ℕ)
    → bits n ≡ 0
    → ((k : ℕ) → 0 ≤ k → k < n → bits k ≡ 1)
    → flipped m ≡ 0
    → flipped m ≡ (if n == m then 1 - bits m else bits m)
    → n < m
zero_behind bits flipped n m clear before clear' turned = elim (Bool-cases (ltb n m)) [
  | inl lt ↦ ground arith
  | inr ge ↦ elim (Bool-cases (n == m)) [
    | inl same ↦
        let at_m : bits m ≡ 0 = ap bits (ground arith) ∙ clear in
        absurd (ground (arith, turned, clear', at_m))
    | inr other ↦
        let at_m : bits m ≡ 1 = before m (omega arith) (ground arith) in
        absurd (ground (arith, turned, clear', at_m))
  ]
]

-- A block that was allocated and whose bit was turned over is not allocated again: the next
-- block that `allocate_block` returns lies behind it.
pub allocate_block_again :
    (disk : Disk) (addr size n m : ℕ)
    → allocate_block disk addr size ≡ some n
    → allocate_block (flip_bit_in_bitmap disk addr n) addr size ≡ some m
    → n < m
allocate_block_again disk addr size n m e f =
    let range = size / 32 * 32 in
    let flipped = flip_bit_in_bitmap disk addr n in
    let first : IsFirstZero (block_bit disk addr) 0 range (some n) =
      subst (IsFirstZero (block_bit disk addr) 0 range) e
        (allocate_block-IsFirstZero disk addr size) in
    let second : IsFirstZero (block_bit flipped addr) 0 range (some m) =
      subst (IsFirstZero (block_bit flipped addr) 0 range) f
        (allocate_block-IsFirstZero flipped addr size) in
    zero_behind (block_bit disk addr) (block_bit flipped addr) n m first.2 first.3 second.2
      (block_bit-flip disk addr n m)
