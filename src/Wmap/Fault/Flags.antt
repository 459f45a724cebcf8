-- ===== src/Wmap/Fault/Flags.antt =====
-- `V2P(mem) | PTE_W | PTE_U | PTE_P` of p4/xv6-public/vm.c, for the address of a page.
use Prim.Native.Nat.{bit_or, bit_and, max, bit_or-bitwise}
use cs537_group_projects.Base.{
  ℕ, zero, suc, ◌+◌, ◌*◌, ◌/◌, ◌%◌, ◌≤◌, ◌≡◌, refl, arith, true, ◌∙◌, ap,
}
use cs537_group_projects.Wfs.Bits.{enough_digits, and_step}
use cs537_group_projects.Wmap.State.{has, pte_p, pte_addr}

or_step : (a b : ℕ) → bit_or a b ≡ bit_or (a / 2) (b / 2) * 2 + max (a % 2) (b % 2)
or_step zero b = omega (arith, bit_or-bitwise 0 b, bit_or-bitwise 0 (b / 2))
or_step (suc a) b = omega (
  arith,
  bit_or-bitwise (suc a) b,
  bit_or-bitwise (suc a / 2) (b / 2),
  enough_digits (λ d. d) max (suc a / 2) a (suc a / 2) (b / 2) (omega arith) (omega arith),
)

or_zero : (n a : ℕ) → a ≤ n → bit_or a 0 ≡ a
or_zero n zero h = refl
or_zero zero (suc a) h = absurd (omega arith)
or_zero (suc n) (suc a) h = omega (arith, or_step (suc a) 0, or_zero n (suc a / 2) (omega arith))

and_zero : (n a : ℕ) → a ≤ n → bit_and a 0 ≡ 0
and_zero n zero h = refl
and_zero zero (suc a) h = absurd (omega arith)
and_zero (suc n) (suc a) h = omega (arith, and_step (suc a) 0, and_zero n (suc a / 2) (omega arith))

or_six : (a : ℕ) → a % 8 ≡ 0 → bit_or a 6 ≡ a + 6
or_six a h = omega (
  arith,
  or_step a 6,
  or_step (a / 2) 3,
  or_step (a / 2 / 2) 1,
  or_zero (a / 2 / 2 / 2) (a / 2 / 2 / 2) (omega arith),
)

or_one : (a : ℕ) → a % 2 ≡ 0 → bit_or a 1 ≡ a + 1
or_one a h = omega (arith, or_step a 1, or_zero (a / 2) (a / 2) (omega arith))

pub flags-of_page : (pa : ℕ) → pa % 4096 ≡ 0 → bit_or (bit_or pa 6) 1 ≡ pa + 7
flags-of_page pa h =
    ap (λ a. bit_or a 1) (or_six pa (omega arith)) ∙ omega (arith, or_one (pa + 6) (omega arith))

-- The entry is present, and of that page.
pub has-flags : (pa : ℕ) → pa % 4096 ≡ 0 → (has (pa + 7) pte_p ≡ true) × (pte_addr (pa + 7) ≡ pa)
unfolding has
has-flags pa h =
    let low : bit_and (pa + 7) 1 ≡ 1 =
      omega (arith, and_step (pa + 7) 1, and_zero ((pa + 7) / 2) ((pa + 7) / 2) (omega arith)) in
    (ground arith, omega arith)
