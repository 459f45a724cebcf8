-- ===== src/Procs/Users.antt =====
-- How many processes of p5/xv6-public/proc.c use a page directory.
use cs537_group_projects.Base.{
  ℕ, zero, suc, ◌+◌, ◌<◌, ◌≤◌, ◌≡◌, ◌≢◌, refl, sym, ap, ap₂, ◌∙◌, Bool, true, not, ◌&&◌, ◌==◌,
  arith, if◌then◌else◌, Bool-cases, inl, inr, update, update-there, update-apart,
}
use cs537_group_projects.Sched.Table.{unused}
use cs537_group_projects.Procs.Calls.{Slot, is_unused}

abbrev pub uses : Slot → ℕ → Bool
uses s d = not (is_unused s.state) && s.pgdir == d

abbrev pub one : Bool → ℕ
one b = if b then 1 else 0

-- Of the first `n` processes.
unfoldable pub users : ℕ → ℕ → (ℕ → Slot) → ℕ
users zero d procs = 0
users (suc n) d procs = one (uses (procs n) d) + users n d procs

-- Tables that agree on who uses the directory.
pub users-same :
    (n d : ℕ) (procs after : ℕ → Slot)
    → ((i : ℕ) → i < n → uses (after i) d ≡ uses (procs i) d)
    → users n d after ≡ users n d procs
unfolding users
users-same zero d procs after same = refl
users-same (suc n) d procs after same =
    ap₂ (λ b m. one b + m) (same n (omega arith))
      (users-same n d procs after (λ i h. same i (omega (arith, h))))

pub users-update :
    (n d : ℕ) (procs : ℕ → Slot) (i : ℕ) (v : Slot)
    → i < n
    → users n d (update procs i v) + one (uses (procs i) d) ≡ users n d procs + one (uses v d)
unfolding users
users-update zero d procs i v h = absurd (omega (arith, h))
users-update (suc n) d procs i v h = elim (Bool-cases (i == n)) [
  | inl last ↦
      let same : i ≡ n = ground (arith, last) in
      let here : uses (update procs i v n) d ≡ uses v d =
        ap (λ k. uses (update procs i v k) d) (sym same)
        ∙ ap (λ s. uses s d) (update-there procs i v) in
      let there : uses (procs i) d ≡ uses (procs n) d = ap (λ k. uses (procs k) d) same in
      let rest : users n d (update procs i v) ≡ users n d procs =
        users-same n d procs (update procs i v) (λ k lt.
          ap (λ s. uses s d) (update-apart procs i v k (λ e. omega (arith, e, lt, same)))) in
      omega (arith, ap one here, ap one there, rest)
  | inr earlier ↦
      let apart : uses (update procs i v n) d ≡ uses (procs n) d =
        ap (λ s. uses s d) (update-apart procs i v n (λ e. ground (arith, e, earlier))) in
      omega (arith, ap one apart, users-update n d procs i v (ground (arith, h, earlier)))
]

-- Who uses it is counted.
pub users-at_least :
    (n d : ℕ) (procs : ℕ → Slot) (i : ℕ) → i < n → uses (procs i) d ≡ true → 1 ≤ users n d procs
unfolding users
users-at_least zero d procs i h u = absurd (omega (arith, h))
users-at_least (suc n) d procs i h u = elim (Bool-cases (i == n)) [
  | inl last ↦
      let here : uses (procs n) d ≡ true = ap (λ k. uses (procs k) d) (ground (arith, last)) ∙ u in
      omega (arith, ap one here)
  | inr earlier ↦ omega (arith, users-at_least n d procs i (ground (arith, h, earlier)) u)
]

-- And two of them twice.
pub users-two :
    (n d : ℕ) (procs : ℕ → Slot) (i j : ℕ)
    → i < n
    → j < n
    → i ≢ j
    → uses (procs i) d ≡ true
    → uses (procs j) d ≡ true
    → 2 ≤ users n d procs
users-two n d procs i j hi hj ne ui uj =
    let gone : Slot = record (procs i) { state = unused } in
    let without = users-update n d procs i gone hi in
    let still : uses (update procs i gone j) d ≡ true =
      ap (λ s. uses s d) (update-apart procs i gone j (λ e. ne (sym e))) ∙ uj in
    let left = users-at_least n d (update procs i gone) j hj still in
    omega (arith, without, left, ap one ui)
