-- ===== src/Kv/Ring/Invariant/Sum.antt =====
-- Weights of the first `n` threads, added up.
use cs537_group_projects.Base.{
  ℕ, zero, suc, ◌+◌, ◌<◌, ◌≤◌, ◌≡◌, refl, arith, ◌==◌, Bool-cases, inl, inr,
}
use cs537_group_projects.Kv.Ring.Threads.{Pc, update}

module _ (weight : Pc → ℕ) where
  pub sum : ℕ → (ℕ → Pc) → ℕ
  sum zero pc = 0
  sum (suc n) pc = sum n pc + weight (pc n)

  sum-update_above :
      (n : ℕ) (pc : ℕ → Pc) (i : ℕ) (p : Pc) → n ≤ i → sum n (update pc i p) ≡ sum n pc
  unfolding sum
  sum-update_above zero pc i p h = refl
  sum-update_above (suc n) pc i p h = ground (arith, sum-update_above n pc i p)

  -- A thread that moves takes its old weight away and brings its new one.
  pub sum-update :
      (n : ℕ) (pc : ℕ → Pc) (i : ℕ) (p : Pc)
      → i < n
      → sum n (update pc i p) + weight (pc i) ≡ sum n pc + weight p
  unfolding sum
  sum-update zero pc i p h = absurd (omega arith)
  sum-update (suc n) pc i p h = elim (Bool-cases (i == n)) [
    | inl last ↦ ground (arith, sum-update_above n pc i p)
    | inr below ↦ ground (arith, sum-update n pc i p)
  ]

  -- No thread weighs more than all.
  pub sum-ge : (n : ℕ) (pc : ℕ → Pc) (i : ℕ) → i < n → weight (pc i) ≤ sum n pc
  unfolding sum
  sum-ge zero pc i h = absurd (omega arith)
  sum-ge (suc n) pc i h = elim (Bool-cases (i == n)) [
    | inl last ↦ ground arith
    | inr below ↦ ground (arith, sum-ge n pc i)
  ]

  -- Threads without weight weigh nothing together.
  pub sum-zero : (n : ℕ) (pc : ℕ → Pc) → ((i : ℕ) → i < n → weight (pc i) ≡ 0) → sum n pc ≡ 0
  unfolding sum
  sum-zero zero pc h = refl
  sum-zero (suc n) pc h =
      omega (arith, h n (omega arith), sum-zero n pc (λ i lt. h i (omega (arith, lt))))
