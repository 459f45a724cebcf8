-- ===== src/Base/Tables.antt =====
-- Tables: functions on numbers, and what a write to one place does.
use Prim.Native.Nat.{ℕ, zero, suc, ◌+◌, ◌<◌, ◌≤◌}
use mathlib.Core.Path.{◌≡◌, ap, ◌∙◌}
use mathlib.Core.Logic.{◌≢◌, inl, inr}
use mathlib.Core.Bool.{Bool, true, false}
use mathlib.Core.Option.{Option, none, some}
use cs537_group_projects.Base.Bools.{◌==◌, if◌then◌else◌, Bool-cases}
use native.Mathlib.Omega.{arith}

unfoldable pub update {ℓ} : {A : Type ℓ} → (ℕ → A) → ℕ → A → ℕ → A
update table i a j = if j == i then a else table j

pub update-there {ℓ} : {A : Type ℓ} (table : ℕ → A) (i : ℕ) (a : A) → update table i a i ≡ a
unfolding update
update-there table i a = ground arith

pub update-apart {ℓ} :
    {A : Type ℓ} (table : ℕ → A) (i : ℕ) (a : A) (j : ℕ) → j ≢ i → update table i a j ≡ table j
unfolding update
update-apart table i a j ne = ground arith

-- The first number that passes the test, from `i` on with `left` to go: a loop over an array.
unfoldable pub first_from : ℕ → ℕ → (ℕ → Bool) → Option ℕ
first_from zero i test = none
first_from (suc left) i test =
    let rest = first_from left (suc i) test in if test i then some i else rest

-- What such a loop finds between two places.
abbrev pub FirstIn : (ℕ → Bool) → ℕ → ℕ → Option ℕ → Type 0
FirstIn test low high none = (k : ℕ) → low ≤ k → k < high → test k ≡ false
FirstIn test low high (some k) =
    (low ≤ k) × (k < high) × (test k ≡ true) × ((j : ℕ) → low ≤ j → j < k → test j ≡ false)

FirstIn-step :
    (test : ℕ → Bool) (i high : ℕ) (o : Option ℕ)
    → test i ≡ false
    → FirstIn test (suc i) high o
    → FirstIn test i high o
FirstIn-step test i high none miss rest = λ k low below. elim (Bool-cases (k == i)) [
  | inl here ↦ let same : k ≡ i = ground (arith, here) in ap test same ∙ miss
  | inr later ↦ rest k (ground (arith, low, later)) below
]
FirstIn-step test i high (some k) miss (low, below, hit, first) = (
  omega (arith, low),
  below,
  hit,
  λ j at lt. elim (Bool-cases (j == i)) [
    | inl here ↦ let same : j ≡ i = ground (arith, here) in ap test same ∙ miss
    | inr later ↦ first j (ground (arith, at, later)) lt
  ],
)

pub first_from-FirstIn :
    (left i high : ℕ) (test : ℕ → Bool)
    → i + left ≡ high
    → FirstIn test i high (first_from left i test)
unfolding first_from
first_from-FirstIn zero i high test e = λ k low below. absurd (omega (arith, e, low, below))
first_from-FirstIn (suc left) i high test e = elim (Bool-cases (test i)) [
  | inl hit ↦ rw hit (omega arith, omega (arith, e), hit, λ j at lt. absurd (omega (arith, at, lt)))
  | inr miss ↦ rw miss (
      FirstIn-step test i high (first_from left (suc i) test) miss
        (first_from-FirstIn left (suc i) high test (omega (arith, e))))
]
