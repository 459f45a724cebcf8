-- ===== src/Xv6/Strings/Moves.antt =====
-- What the copies of p5/xv6-public/string.c leave in memory, also where the buffers overlap.
use cs537_group_projects.Base.{
  update, update-there, update-apart, ℕ, zero, suc, ◌+◌, ◌-◌, ◌<◌, ◌≤◌, ◌≡◌, ◌⊎◌, inl, inr, refl,
  ap, ◌∙◌, arith, ◌&&◌, ◌==◌, ltb, Bool-cases,
}
use cs537_group_projects.Xv6.Strings.{copy_up, copy_down, memmove}

-- The `n` bytes at `dst` are those that were at `src`; the others stay.
pub record Moved (dst src n : ℕ) (mem after : ℕ → ℕ) : Type 0 where
  pub copied : (k : ℕ) → k < n → after (dst + k) ≡ mem (src + k)
  pub kept : (x : ℕ) → (x < dst) ⊎ (dst + n ≤ x) → after x ≡ mem x

copy_up-Moved :
    (n d s : ℕ) (mem : ℕ → ℕ) → (d ≤ s) ⊎ (s + n ≤ d) → Moved d s n mem (copy_up n d s mem)
unfolding copy_up
copy_up-Moved zero d s mem apart = record {
  copied = λ k h. absurd (omega (arith, h));
  kept = λ x h. refl;
}
copy_up-Moved (suc n) d s mem apart =
    let rest = copy_up-Moved n (suc d) (suc s) (update mem d (mem s)) (ground (arith, apart)) in
    record {
      copied = λ k h. elim (Bool-cases (k == 0)) [
        | inl first ↦
            let here : d + k ≡ d = ground (arith, first) in
            let there : s ≡ s + k = ground (arith, first) in
            ap (copy_up n (suc d) (suc s) (update mem d (mem s))) here
            ∙ rest.kept d (inl (omega arith))
            ∙ update-there mem d (mem s)
            ∙ ap mem there
        | inr later ↦
            let place : d + k ≡ suc d + (k - 1) = ground (arith, later) in
            let from : suc s + (k - 1) ≡ s + k = ground (arith, later) in
            ap (copy_up n (suc d) (suc s) (update mem d (mem s))) place
            ∙ rest.copied (k - 1) (ground (arith, h, later))
            ∙ ap (update mem d (mem s)) from
            ∙ update-apart mem d (mem s) (s + k) (λ e. ground (arith, e, apart, h, later))
      ];
      kept = λ x h.
          rest.kept x (ground (arith, h))
          ∙ update-apart mem d (mem s) x (λ e. ground (arith, e, h));
    }

down_step :
    (n d s : ℕ) (mem : ℕ → ℕ)
    → s ≤ d
    → Moved d s n
        (update mem (d + n) (mem (s + n)))
        (copy_down n (d + n) (s + n) (update mem (d + n) (mem (s + n))))
    → Moved d s (suc n) mem (copy_down n (d + n) (s + n) (update mem (d + n) (mem (s + n))))
down_step n d s mem le rest =
    let last = mem (s + n) in
    record {
      copied = λ k h. elim (Bool-cases (k == n)) [
        | inl top ↦
            let same : k ≡ n = ground (arith, top) in
            ap (λ k. copy_down n (d + n) (s + n) (update mem (d + n) last) (d + k)) same
            ∙ rest.kept (d + n) (inr (omega arith))
            ∙ update-there mem (d + n) last
            ∙ ap (λ k. mem (s + k)) (ground (arith, top))
        | inr below ↦
            rest.copied k (ground (arith, h, below))
            ∙ update-apart mem (d + n) last (s + k) (λ e. ground (arith, e, le, h, below))
      ];
      kept = λ x h.
          rest.kept x (ground (arith, h))
          ∙ update-apart mem (d + n) last x (λ e. ground (arith, e, h));
    }

-- The same from the end, for a source in front of the target.
copy_down-Moved :
    (n d s : ℕ) (mem : ℕ → ℕ) → s ≤ d → Moved d s n mem (copy_down n (d + n) (s + n) mem)
unfolding copy_down
copy_down-Moved zero d s mem le = record {
  copied = λ k h. absurd (omega (arith, h));
  kept = λ x h. refl;
}
copy_down-Moved (suc n) d s mem le =
    let top : d + suc n - 1 ≡ d + n = omega arith in
    let bottom : s + suc n - 1 ≡ s + n = omega arith in
    rw (top, bottom)
      (down_step n d s mem le (copy_down-Moved n d s (update mem (d + n) (mem (s + n))) le))

-- `memmove` moves `n` bytes, whether or not the source and the target overlap.
pub memmove-Moved : (dst src n : ℕ) (mem : ℕ → ℕ) → Moved dst src n mem (memmove dst src n mem)
unfolding memmove
memmove-Moved dst src n mem = elim (Bool-cases (ltb src dst && ltb dst (src + n))) [
  | inl overlap ↦ rw overlap (copy_down-Moved n dst src mem (ground (arith, overlap)))
  | inr clear ↦ rw clear (copy_up-Moved n dst src mem (ground (arith, clear)))
]
