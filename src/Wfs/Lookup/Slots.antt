-- ===== src/Wfs/Lookup/Slots.antt =====
-- What `find_dentry` of p7/wfs.c finds.
use cs537_group_projects.Base.{
  is_positive, ℕ, zero, suc, ◌+◌, ◌<◌, ◌≤◌, ◌≡◌, refl, ap, ◌∙◌, inl, inr, Bool, true, false, ◌==◌,
  if◌then◌else◌, arith, Bool-cases,
}
use cs537_group_projects.Wfs.Disk.{Disk}
use cs537_group_projects.Wfs.Inode.{dentry_at, dentry_num, has_name}
use cs537_group_projects.Wfs.Lookup.{Name, Dentry, hit, unused, missing, find_slot, find_dentry}

-- No entry from `lo` up to `hi` has the name.
abbrev pub NoneNamed : Disk → ℕ → Name → ℕ → ℕ → Type 0
NoneNamed disk offset name lo hi =
    (k : ℕ) → lo ≤ k → k < hi → has_name disk (dentry_at offset k) name ≡ false

-- The first entry with the name, and its number.
abbrev pub Scanned : Disk → ℕ → Name → ℕ → ℕ → Dentry → Type 0
Scanned disk offset name lo hi (hit num j) =
    (lo ≤ j)
    × (j < hi)
    × (has_name disk (dentry_at offset j) name ≡ true)
    × (num ≡ dentry_num disk (dentry_at offset j))
    × NoneNamed disk offset name lo j
Scanned disk offset name lo hi unused = NoneNamed disk offset name lo hi
Scanned disk offset name lo hi missing = NoneNamed disk offset name lo hi

NoneNamed-in_front :
    (disk : Disk) (offset : ℕ) (name : Name) (lo hi : ℕ)
    → has_name disk (dentry_at offset lo) name ≡ false
    → NoneNamed disk offset name (lo + 1) hi
    → NoneNamed disk offset name lo hi
NoneNamed-in_front disk offset name lo hi first rest k a b = elim (Bool-cases (k == lo)) [
  | inl same ↦
      ap (λ i. has_name disk (dentry_at offset i) name) {x = k} {y = lo} (ground arith) ∙ first
  | inr other ↦ rest k (ground arith) b
]

Scanned-in_front :
    (disk : Disk) (offset : ℕ) (name : Name) (lo hi : ℕ) (r : Dentry)
    → has_name disk (dentry_at offset lo) name ≡ false
    → Scanned disk offset name (lo + 1) hi r
    → Scanned disk offset name lo hi r
Scanned-in_front disk offset name lo hi (hit num j) first (above, below, here, number, before) =
    (omega arith, below, here, number, NoneNamed-in_front disk offset name lo j first before)
Scanned-in_front disk offset name lo hi unused first rest =
    NoneNamed-in_front disk offset name lo hi first rest
Scanned-in_front disk offset name lo hi missing first rest =
    NoneNamed-in_front disk offset name lo hi first rest

find_slot-Scanned :
    (n i hi : ℕ) (found : Bool) (disk : Disk) (offset : ℕ) (name : Name)
    → i + n ≡ hi
    → Scanned disk offset name i hi (find_slot n i found disk offset name)
unfolding find_slot
find_slot-Scanned zero i hi true disk offset name e = λ k a b. absurd (omega arith)
find_slot-Scanned zero i hi false disk offset name e = λ k a b. absurd (omega arith)
find_slot-Scanned (suc n) i hi found disk offset name e =
    elim (Bool-cases (has_name disk (dentry_at offset i) name)) [
      | inl here ↦ rw here (omega arith, omega arith, here, refl, λ k a b. absurd (omega arith))
      | inr other ↦
          let seen = if is_positive (dentry_num disk (dentry_at offset i)) then true else found in
          rw other (
            Scanned-in_front disk offset name i hi (find_slot n (i + 1) seen disk offset name) other
              (find_slot-Scanned n (i + 1) hi seen disk offset name (omega arith)))
    ]

-- `find_dentry` returns the number of the first of the 32 entries from the offset on that has the
-- name, with its place in `dentry_loc`, and -1 or -2 only where none of the 32 has it.
pub find_dentry-Scanned :
    (disk : Disk) (offset : ℕ) (name : Name)
    → Scanned disk offset name 0 32 (find_dentry disk offset name)
unfolding find_dentry
find_dentry-Scanned disk offset name = find_slot-Scanned 32 0 32 false disk offset name refl
