-- ===== src/Wfs/Bits.antt =====
-- Single bits of a number, and what `^`, `&` and `~` of one word do to them.
use Prim.Native.Nat.{bit_xor, bit_and, differ, min, digits, bit_xor-bitwise, bit_and-bitwise}
use native.Mathlib.Nat.{pow-succ', div-div-eq-div-mul}
use cs537_group_projects.Base.{
  ℕ, zero, suc, ◌+◌, ◌-◌, ◌*◌, ◌/◌, ◌%◌, ◌^◌, ◌<◌, ◌≤◌, ◌≡◌, refl, arith, ◌==◌, if◌then◌else◌, ap,
  ap₂, ◌∙◌, sym,
}

-- Bit `c` of `x`.
abbrev pub bit : ℕ → ℕ → ℕ
bit x c = x / 2 ^ c % 2

div-two-pow : (x c : ℕ) → x / 2 ^ suc c ≡ x / 2 / 2 ^ c
div-two-pow x c = rw (pow-succ' 2 c, div-div-eq-div-mul x 2 (2 ^ c))

pub bit-suc : (x c : ℕ) → bit x (suc c) ≡ bit (x / 2) c
bit-suc x c = ap (λ (t : ℕ). t % 2) (div-two-pow x c)

-- The count of digits in the definition of `^` and `&` does not matter where it suffices.
module _ (rest : ℕ → ℕ) (join : ℕ → ℕ → ℕ) where
  pub enough_digits :
      (a n m b : ℕ) → a ≤ n → a ≤ m → digits rest join n a b ≡ digits rest join m a b
  enough_digits zero zero zero b p q = refl
  enough_digits zero zero (suc m) b p q = refl
  enough_digits zero (suc n) zero b p q = refl
  enough_digits zero (suc n) (suc m) b p q = refl
  enough_digits (suc a) zero m b p q = absurd (omega arith)
  enough_digits (suc a) (suc n) zero b p q = absurd (omega arith)
  enough_digits (suc a) (suc n) (suc m) b p q =
      rw (enough_digits (suc a / 2) n m (b / 2) (omega arith) (omega arith))

xor_step : (a b : ℕ) → bit_xor a b ≡ bit_xor (a / 2) (b / 2) * 2 + differ (a % 2) (b % 2)
xor_step zero b = omega (arith, bit_xor-bitwise 0 b, bit_xor-bitwise 0 (b / 2))
xor_step (suc a) b = omega (
  arith,
  bit_xor-bitwise (suc a) b,
  bit_xor-bitwise (suc a / 2) (b / 2),
  enough_digits (λ d. d) differ (suc a / 2) a (suc a / 2) (b / 2) (omega arith) (omega arith),
)

pub and_step : (a b : ℕ) → bit_and a b ≡ bit_and (a / 2) (b / 2) * 2 + min (a % 2) (b % 2)
and_step zero b = omega (arith, bit_and-bitwise 0 b, bit_and-bitwise 0 (b / 2))
and_step (suc a) b = omega (
  arith,
  bit_and-bitwise (suc a) b,
  bit_and-bitwise (suc a / 2) (b / 2),
  enough_digits (λ d. 0) min (suc a / 2) a (suc a / 2) (b / 2) (omega arith) (omega arith),
)

differ-zero : (a : ℕ) → differ a 0 ≡ a
differ-zero zero = refl
differ-zero (suc a) = refl

differ-one : (a : ℕ) → a < 2 → differ a 1 ≡ 1 - a
differ-one zero h = refl
differ-one (suc zero) h = refl
differ-one (suc (suc a)) h = absurd (omega arith)

two_pow_half : (c : ℕ) → (2 ^ suc c / 2 ≡ 2 ^ c) × (2 ^ suc c % 2 ≡ 0)
two_pow_half c = omega (arith, pow-succ' 2 c)

xor-zero_fuel : (n a : ℕ) → a ≤ n → bit_xor a 0 ≡ a
xor-zero_fuel zero a h = let e : a ≡ 0 = omega arith in rw e
xor-zero_fuel (suc n) zero h = refl
xor-zero_fuel (suc n) (suc a) h =
    omega (
      arith,
      xor_step (suc a) 0,
      differ-zero (suc a % 2),
      xor-zero_fuel n (suc a / 2) (omega arith),
    )

xor-zero : (a : ℕ) → bit_xor a 0 ≡ a
xor-zero a = xor-zero_fuel a a (omega arith)

xor_halves :
    (x c : ℕ)
    → (bit_xor x 1 / 2 ≡ x / 2)
      × (bit_xor x (2 ^ suc c) / 2 ≡ bit_xor (x / 2) (2 ^ c))
      × (bit_xor x (2 ^ suc c) % 2 ≡ x % 2)
xor_halves x c =
    let (half, even) = two_pow_half c in
    let step : bit_xor x (2 ^ suc c) ≡ bit_xor (x / 2) (2 ^ c) * 2 + x % 2 =
      xor_step x (2 ^ suc c)
      ∙ ap₂ (λ h d. bit_xor (x / 2) h * 2 + differ (x % 2) d) half even
      ∙ ap (λ d. bit_xor (x / 2) (2 ^ c) * 2 + d) (differ-zero (x % 2)) in
    (
      omega (arith, xor_step x 1, differ-one (x % 2) (omega arith), xor-zero (x / 2)),
      omega (arith, step),
      omega (arith, step),
    )

-- `x ^ (1 << c)` turns bit `c` over and no other.
pub bit-xor : (x c e : ℕ) → bit (bit_xor x (2 ^ c)) e ≡ (if c == e then 1 - bit x e else bit x e)
bit-xor x zero zero = omega (arith, xor_step x 1, differ-one (x % 2) (omega arith))
bit-xor x zero (suc e) =
    let same : bit (bit_xor x 1) (suc e) ≡ bit x (suc e) =
      bit-suc (bit_xor x 1) e ∙ ap (λ t. bit t e) (xor_halves x 0).0 ∙ sym (bit-suc x e) in
    ground (arith, same)
bit-xor x (suc c) zero = ground (arith, xor_halves x c)
bit-xor x (suc c) (suc e) =
    let halved : bit (bit_xor x (2 ^ suc c)) (suc e) ≡ bit (bit_xor (x / 2) (2 ^ c)) e =
      bit-suc (bit_xor x (2 ^ suc c)) e ∙ ap (λ t. bit t e) (xor_halves x c).1 in
    ground (arith, halved, bit-xor (x / 2) c e, bit-suc x e)

-- The word keeps within its width.
pub xor-lt : (x c w : ℕ) → x < 2 ^ w → c < w → bit_xor x (2 ^ c) < 2 ^ w
xor-lt x c zero h lt = absurd (omega arith)
xor-lt x zero (suc w) h lt =
    omega (arith, xor_step x 1, differ-one (x % 2) (omega arith), xor-zero (x / 2), pow-succ' 2 w)
xor-lt x (suc c) (suc w) h lt = omega (
  arith,
  xor_halves x c,
  xor-lt (x / 2) c w (omega (arith, pow-succ' 2 w)) (omega arith),
  pow-succ' 2 w,
)

-- `(1 << c) & x` is not 0 exactly where bit `c` is set.
pub and-bit : (c x : ℕ) → bit_and (2 ^ c) x ≡ 2 ^ c * bit x c
and-bit zero x = omega (arith, and_step 1 x, bit_and-bitwise 0 (x / 2))
and-bit (suc c) x =
    let step : bit_and (2 ^ suc c) x ≡ bit_and (2 ^ c) (x / 2) * 2 =
      and_step (2 ^ suc c) x
      ∙ ap₂ (λ h d. bit_and h (x / 2) * 2 + min d (x % 2)) (two_pow_half c).0 (two_pow_half c).1
      ∙ omega arith in
    step ∙ rw (and-bit c (x / 2), bit-suc x c, pow-succ' 2 c) (omega arith)

-- Every bit of `~x` below the width is turned over.
pub bit-not : (w x c : ℕ) → x < 2 ^ w → c < w → bit (2 ^ w - 1 - x) c ≡ 1 - bit x c
bit-not zero x c h lt = absurd (omega arith)
bit-not (suc w) x zero h lt = omega (arith, pow-succ' 2 w)
bit-not (suc w) x (suc c) h lt =
    let halved : (2 ^ suc w - 1 - x) / 2 ≡ 2 ^ w - 1 - x / 2 = omega (arith, pow-succ' 2 w) in
    bit-suc (2 ^ suc w - 1 - x) c
    ∙ ap (λ t. bit t c) halved
    ∙ bit-not w (x / 2) c (omega (arith, pow-succ' 2 w)) (omega arith)
    ∙ ap (λ t. 1 - t) (sym (bit-suc x c))
