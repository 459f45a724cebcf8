-- ===== src/Xv6/Pipe/Window.antt =====
-- The bytes of a pipe of p5/xv6-public/pipe.c as a list.
use cs537_group_projects.Base.{
  update, update-apart, ℕ, zero, suc, ◌+◌, ◌-◌, ◌%◌, ◌^◌, ◌<◌, ◌≤◌, ◌≡◌, ◌≢◌, refl, sym, ap, ap₂,
  ◌∙◌, List, [], ◌∷◌, ◌++◌, arith, length,
}
use cs537_group_projects.Xv6.Pipe.{Pipe, pipe_size}

-- `count` bytes of the ring from index `from` on.
unfoldable pub window : ℕ → ℕ → (ℕ → ℕ) → List ℕ
window zero from ring = []
window (suc count) from ring = ring (from % pipe_size) ∷ window count ((from + 1) % 2 ^ 32) ring

-- How many bytes there are, and the bytes, oldest first.
unfoldable pub used : Pipe → ℕ
used p = (p.nwrite + 2 ^ 32 - p.nread) % 2 ^ 32

abbrev pub queue : Pipe → List ℕ
queue p = window (used p) p.nread p.data_at

pub record Bounded (p : Pipe) : Type 0 where
  pub read_word : p.nread < 2 ^ 32
  pub write_word : p.nwrite < 2 ^ 32
  pub room : used p ≤ pipe_size

pub length-window : (count from : ℕ) (ring : ℕ → ℕ) → length (window count from ring) ≡ count
unfolding window
length-window zero from ring = refl
length-window (suc count) from ring = ap suc (length-window count ((from + 1) % 2 ^ 32) ring)

-- A write behind the window.
pub window-put :
    (count from place c : ℕ) (ring : ℕ → ℕ)
    → from < 2 ^ 32
    → place < pipe_size
    → ((k : ℕ) → k < count → (from + k) % pipe_size ≢ place)
    → window count from (update ring place c) ≡ window count from ring
unfolding window
window-put zero from place c ring word small apart = refl
window-put (suc count) from place c ring word small apart =
    let head : update ring place c (from % pipe_size) ≡ ring (from % pipe_size) =
      update-apart ring place c (from % pipe_size)
        (λ e. apart 0 (omega arith) (omega (arith, e))) in
    let tail =
      window-put count ((from + 1) % 2 ^ 32) place c ring (omega arith) small
        (λ k h e. apart (k + 1) (omega (arith, h)) (omega (arith, e, word))) in
    ap₂ (λ b bs. b ∷ bs) head tail

-- The window and one byte more.
pub window-snoc :
    (count from : ℕ) (ring : ℕ → ℕ)
    → from < 2 ^ 32
    → window (suc count) from ring
      ≡ window count from ring ++ (ring ((from + count) % pipe_size) ∷ [])
unfolding window
window-snoc zero from ring word =
    let place : (from + 0) % pipe_size ≡ from % pipe_size = omega arith in
    ap (λ i. ring i ∷ []) (sym place)
window-snoc (suc count) from ring word =
    let place : ((from + 1) % 2 ^ 32 + count) % pipe_size ≡ (from + suc count) % pipe_size =
      omega arith in
    ap (λ bs. ring (from % pipe_size) ∷ bs)
      (window-snoc count ((from + 1) % 2 ^ 32) ring (omega arith)
        ∙ ap (λ i. window count ((from + 1) % 2 ^ 32) ring ++ (ring i ∷ [])) place)
