-- ===== src/Kv/Client/Slots.antt =====
-- The slots of a window: numbers less than the size of the window apart have different ones.
use native.Mathlib.Nat.{mod-lt, mod-eq_of_lt, mod-add-mod, mod-eq-sub-mod}
use cs537_group_projects.Base.{
  ℕ, ◌+◌, ◌-◌, ◌*◌, ◌/◌, ◌%◌, ◌<◌, ◌≤◌, ◌≡◌, inl, inr, sym, ap, ◌∙◌, leb, arith, Bool-cases,
}
use cs537_group_projects.Kv.Client.{desc_bytes}

same_slot_zero : (w j e : ℕ) → e < w → (j + e) % w ≡ j % w → e ≡ 0
same_slot_zero w j e lt same =
    let r : ℕ = j % w in
    let small : r < w = mod-lt j (omega arith) in
    let moved : (r + e) % w ≡ r = mod-add-mod j w e ∙ same in
    elim (Bool-cases (leb w (r + e))) [
      | inl past ↦
          let over : w ≤ r + e = ground (arith, past) in
          let back : (r + e) % w ≡ (r + e - w) % w = mod-eq-sub-mod over in
          let there : (r + e - w) % w ≡ r + e - w = mod-eq_of_lt (omega (arith, small, lt)) in
          absurd (omega (arith, moved, back, there, over, lt))
      | inr inside ↦
          let there : (r + e) % w ≡ r + e = mod-eq_of_lt (ground (arith, inside)) in
          omega (arith, moved, there)
    ]

-- Two numbers of one window with the same slot are the same.
pub same_slot :
    (w low i j : ℕ) → low ≤ i → i < low + w → low ≤ j → j < low + w → i % w ≡ j % w → i ≡ j
same_slot w low i j li ui lj uj same = elim (Bool-cases (leb i j)) [
  | inl le ↦
      let up : i + (j - i) ≡ j = ground (arith, le) in
      let gap = same_slot_zero w i (j - i) (omega arith) (ap (λ x. x % w) up ∙ sym same) in
      ground (arith, gap, le)
  | inr gt ↦
      let up : j + (i - j) ≡ i = ground (arith, gt) in
      let gap = same_slot_zero w j (i - j) (omega arith) (ap (λ x. x % w) up ∙ same) in
      ground (arith, gap, gt)
]

-- The slot of the byte offset of slot `k`.
pub slot_of_offset : (off k : ℕ) → (off + k * desc_bytes - off) / desc_bytes ≡ k
slot_of_offset off k = omega arith
