-- ===== src/Xv6/Strings/Ended.antt =====
-- `safestrcpy` of p5/xv6-public/string.c always ends the string within its buffer.
use cs537_group_projects.Base.{
  update, update-there, update-apart, ℕ, zero, suc, ◌+◌, ◌-◌, ◌<◌, ◌≤◌, ◌≡◌, ◌⊎◌, inl, inr, ap, ◌∙◌,
  arith, ◌==◌, false, Bool-cases,
}
use cs537_group_projects.Xv6.Strings.{copy_string, safestrcpy}

-- A string of less than `n` bytes is at `s`: the first bytes of the one at `t`, and a 0; no byte outside
-- the `n` at `s` is changed.
pub record Ended (s t n : ℕ) (mem after : ℕ → ℕ) : Type 0 where
  pub size : ℕ
  pub fits : size < n
  pub ends : after (s + size) ≡ 0
  pub copied : (j : ℕ) → j < size → after (s + j) ≡ mem (t + j)
  pub kept : (x : ℕ) → (x < s) ⊎ (s + n ≤ x) → after x ≡ mem x

-- A byte that is not 0, and the rest.
longer :
    (s t n : ℕ) (mem after : ℕ → ℕ)
    → (s ≤ t) ⊎ (t + suc n ≤ s)
    → Ended (suc s) (suc t) n (update mem s (mem t)) after
    → Ended s t (suc n) mem after
longer s t n mem after apart rest = record {
  size = suc rest.size;
  fits = omega (arith, rest.fits);
  ends = ap after (omega arith) ∙ rest.ends;
  copied = λ j h. elim (Bool-cases (j == 0)) [
    | inl first ↦
        let here : s + j ≡ s = ground (arith, first) in
        let there : t ≡ t + j = ground (arith, first) in
        ap after here ∙ rest.kept s (inl (omega arith)) ∙ update-there mem s (mem t) ∙ ap mem there
    | inr later ↦
        let place : s + j ≡ suc s + (j - 1) = ground (arith, later) in
        let from : suc t + (j - 1) ≡ t + j = ground (arith, later) in
        ap after place
        ∙ rest.copied (j - 1) (ground (arith, h, later))
        ∙ ap (update mem s (mem t)) from
        ∙ update-apart mem s (mem t) (t + j) (λ e. ground (arith, e, apart, h, later, rest.fits))
  ];
  kept = λ x h.
      rest.kept x (ground (arith, h)) ∙ update-apart mem s (mem t) x (λ e. ground (arith, e, h));
}

copy_string-Ended :
    (left s t : ℕ) (mem : ℕ → ℕ)
    → (s ≤ t) ⊎ (t + suc left ≤ s)
    → Ended s t (suc left) mem (copy_string left s t mem)
unfolding copy_string
copy_string-Ended zero s t mem apart = record {
  size = 0;
  fits = omega arith;
  ends = ap (update mem s 0) (omega arith) ∙ update-there mem s 0;
  copied = λ j h. absurd (omega (arith, h));
  kept = λ x h. update-apart mem s 0 x (λ e. ground (arith, e, h));
}
copy_string-Ended (suc left) s t mem apart = elim (Bool-cases (mem t == 0)) [
  | inl nul ↦ rw nul (record {
    size = 0;
    fits = omega arith;
    ends =
        ap (update (update mem s (mem t)) (suc s) 0) (omega arith)
        ∙ update-apart (update mem s (mem t)) (suc s) 0 s (λ e. omega (arith, e))
        ∙ update-there mem s (mem t)
        ∙ ground (arith, nul);
    copied = λ j h. absurd (omega (arith, h));
    kept = λ x h.
        update-apart (update mem s (mem t)) (suc s) 0 x (λ e. ground (arith, e, h))
        ∙ update-apart mem s (mem t) x (λ e. ground (arith, e, h));
  })
  | inr more ↦ rw more (
      longer s t (suc left) mem (copy_string left (suc s) (suc t) (update mem s (mem t))) apart
        (copy_string-Ended left (suc s) (suc t) (update mem s (mem t)) (ground (arith, apart))))
]

-- Into a buffer of at least one byte, with the source at or behind it or wholly in front of it,
-- `safestrcpy` leaves a string that ends within the buffer, whose bytes are those of the source,
-- and no byte outside the buffer is changed.
pub safestrcpy-Ended :
    (s t n : ℕ) (mem : ℕ → ℕ)
    → 0 < n
    → (s ≤ t) ⊎ (t + n ≤ s)
    → Ended s t n mem (safestrcpy s t n mem)
unfolding safestrcpy
safestrcpy-Ended s t zero mem some_room apart = absurd (omega arith)
safestrcpy-Ended s t (suc left) mem some_room apart =
    let back : suc left - 1 ≡ left = omega arith in
    let test : (suc left == 0) ≡ false = ground arith in
    rw (test, back) (copy_string-Ended left s t mem apart)
