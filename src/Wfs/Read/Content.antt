-- ===== src/Wfs/Read/Content.antt =====
-- What `wfs_read` of p7/wfs.c returns, as the bytes of the file.
use cs537_group_projects.Base.{
  ◌⊎◌, sym, ◌≢◌, leb, get_or, ℕ, zero, suc, ◌+◌, ◌-◌, ◌*◌, ◌/◌, ◌%◌, ◌<◌, ◌≡◌, ap, ap₂, ◌∙◌, List,
  [], ◌∷◌, ◌++◌, arith, Bool-cases, inl, inr,
}
use cs537_group_projects.Wfs.Disk.{Disk, byte, load_long}
use cs537_group_projects.Wfs.Inode.{size_of}
use cs537_group_projects.Wfs.Read.{min, data_block, effective_file_size}

-- The array of `n` block addresses at `a`, each an `off_t` of eight bytes.
unfoldable pub addresses : Disk → ℕ → ℕ → List ℕ
addresses disk a zero = []
addresses disk a (suc n) = load_long disk a ∷ addresses disk (a + 8) n

-- The blocks of a file, in order: the seven addresses in its inode, and the 64 in the block that the
-- eighth gives.
unfoldable pub file_blocks : Disk → ℕ → List ℕ
unfolding addresses
file_blocks disk inode =
    addresses disk (inode + 56) 7 ++ addresses disk (load_long disk (inode + 112)) 64

-- Byte `k` of a file.
unfoldable pub content : Disk → ℕ → ℕ → ℕ
unfolding file_blocks
content disk inode k = byte disk (get_or (file_blocks disk inode) (k / 512) 0 + k % 512)

-- Byte `k` has a place: among the 71 blocks, in one that is allocated, as is the block with its
-- address if that is not in the inode.
abbrev pub HasPlace : Disk → ℕ → ℕ → Type 0
HasPlace disk inode k =
    (k / 512 < 71)
    × ((k / 512 < 7) ⊎ (load_long disk (inode + 112) ≢ 0))
    × (get_or (file_blocks disk inode) (k / 512) 0 ≢ 0)

addresses-front :
    (disk : Disk) (a n i : ℕ) (more : List ℕ)
    → i < n
    → get_or (addresses disk a n ++ more) i 0 ≡ load_long disk (a + i * 8)
unfolding addresses
addresses-front disk a zero i more h = absurd (omega (arith, h))
addresses-front disk a (suc n) zero more h =
    ap (load_long disk) {x = a} {y = a + 0 * 8} (omega arith)
addresses-front disk a (suc n) (suc i) more h =
    addresses-front disk (a + 8) n i more (omega (arith, h))
    ∙ ap (load_long disk) {x = a + 8 + i * 8} {y = a + suc i * 8} (omega arith)

addresses-behind :
    (disk : Disk) (a n i : ℕ) (more : List ℕ)
    → get_or (addresses disk a n ++ more) (n + i) 0 ≡ get_or more i 0
unfolding addresses
addresses-behind disk a zero i more = ap (λ j. get_or more j 0) {x = 0 + i} {y = i} (omega arith)
addresses-behind disk a (suc n) i more =
    ap (λ j. get_or (addresses disk a (suc n) ++ more) j 0) {x = suc n + i} {y = suc (n + i)}
      (omega arith)
    ∙ addresses-behind disk (a + 8) n i more

addresses-all :
    (disk : Disk) (a n i : ℕ) → i < n → get_or (addresses disk a n) i 0 ≡ load_long disk (a + i * 8)
unfolding addresses
addresses-all disk a zero i h = absurd (omega (arith, h))
addresses-all disk a (suc n) zero h = ap (load_long disk) {x = a} {y = a + 0 * 8} (omega arith)
addresses-all disk a (suc n) (suc i) h =
    addresses-all disk (a + 8) n i (omega (arith, h))
    ∙ ap (load_long disk) {x = a + 8 + i * 8} {y = a + suc i * 8} (omega arith)

-- What the loop of `wfs_read` takes for block `b` is that block of the file.
file_blocks-data_block :
    (disk : Disk) (inode b : ℕ)
    → b < 71
    → get_or (file_blocks disk inode) b 0 ≡ data_block disk inode b
unfolding file_blocks data_block
file_blocks-data_block disk inode b h = elim (Bool-cases (leb 7 b)) [
  | inl indirect ↦
      let place : b ≡ 7 + (b - 7) = ground (arith, indirect) in
      let first : load_long disk (inode + 112) ≡ load_long disk (inode + 56 + 7 * 8) =
        ap (load_long disk) {x = inode + 112} {y = inode + 56 + 7 * 8} (omega arith) in
      rw indirect (
        ap (λ c. get_or (file_blocks disk inode) c 0) place
        ∙ addresses-behind disk (inode + 56) 7 (b - 7)
            (addresses disk (load_long disk (inode + 112)) 64)
        ∙ addresses-all disk (load_long disk (inode + 112)) 64 (b - 7) (ground (arith, h, indirect))
        ∙ ap (λ c. load_long disk (c + (b - 7) * 8)) first)
  | inr direct ↦ rw direct (
      addresses-front disk (inode + 56) 7 b (addresses disk (load_long disk (inode + 112)) 64)
        (ground (arith, direct)))
]

-- The byte that the loop takes for byte `k`.
read_byte : Disk → ℕ → ℕ → ℕ
read_byte disk inode k = byte disk (data_block disk inode (k / 512) + k % 512)

read_byte-content :
    (disk : Disk) (inode k : ℕ) → k / 512 < 71 → read_byte disk inode k ≡ content disk inode k
unfolding content read_byte
read_byte-content disk inode k h =
    ap (λ b. byte disk (b + k % 512)) (sym (file_blocks-data_block disk inode (k / 512) h))

-- `n` bytes that the loop takes, from byte `k` on.
abbrev contents : Disk → ℕ → ℕ → ℕ → List ℕ
contents disk inode zero k = []
contents disk inode (suc n) k = read_byte disk inode k ∷ contents disk inode n (k + 1)

read_byte-at :
    (disk : Disk) (inode b o k : ℕ)
    → o < 512
    → k ≡ b * 512 + o
    → byte disk (data_block disk inode b + o) ≡ read_byte disk inode k
unfolding read_byte
read_byte-at disk inode b o k h e =
    let block : b ≡ k / 512 = omega arith in
    let place : o ≡ k % 512 = omega arith in
    ap₂ (λ b o. byte disk (data_block disk inode b + o)) block place

pub content-at :
    (disk : Disk) (inode b o k : ℕ)
    → b < 71
    → o < 512
    → k ≡ b * 512 + o
    → byte disk (data_block disk inode b + o) ≡ content disk inode k
content-at disk inode b o k small h e =
    read_byte-at disk inode b o k h e ∙ read_byte-content disk inode k (omega (arith, small, h, e))

-- How many bytes of a file there are to read at an offset.
abbrev pub readable : Disk → ℕ → ℕ → ℕ → ℕ
readable disk inode size offset = min size (effective_file_size offset (size_of disk inode))
