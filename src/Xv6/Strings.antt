-- ===== src/Xv6/Strings.antt =====
-- Copies of p5/xv6-public/string.c (p4 has the same file) and of ulib.c, over a memory of bytes, for
-- buffers that do not reach past the end of the address space.
pub mod Moves
pub mod Ended
use cs537_group_projects.Base.{update, ℕ, zero, suc, ◌+◌, ◌-◌, ◌&&◌, ◌==◌, ltb, Bool, if◌then◌else◌}

-- `*d++ = *s++`, `n` times.
unfoldable pub copy_up : ℕ → ℕ → ℕ → (ℕ → ℕ) → ℕ → ℕ
copy_up zero d s mem = mem
copy_up (suc n) d s mem = copy_up n (suc d) (suc s) (update mem d (mem s))

-- `*--d = *--s`, `n` times.
unfoldable pub copy_down : ℕ → ℕ → ℕ → (ℕ → ℕ) → ℕ → ℕ
copy_down zero d s mem = mem
copy_down (suc n) d s mem = copy_down n (d - 1) (s - 1) (update mem (d - 1) (mem (s - 1)))

unfoldable pub memmove : ℕ → ℕ → ℕ → (ℕ → ℕ) → ℕ → ℕ
memmove dst src n mem =
    if ltb src dst && ltb dst (src + n)
    then copy_down n (dst + n) (src + n) mem
    else copy_up n dst src mem

-- `memmove` of ulib.c
unfoldable pub user_memmove : ℕ → ℕ → ℕ → (ℕ → ℕ) → ℕ → ℕ
user_memmove dst src n mem = copy_up n dst src mem

-- The loop of `safestrcpy`, after the test of `n`, with `left` bytes to go; then the end of the string.
unfoldable pub copy_string : ℕ → ℕ → ℕ → (ℕ → ℕ) → ℕ → ℕ
copy_string zero s t mem = update mem s 0
copy_string (suc left) s t mem =
    let next = update mem s (mem t) in
    let rest = copy_string left (suc s) (suc t) next in
    if mem t == 0 then update next (suc s) 0 else rest

unfoldable pub safestrcpy : ℕ → ℕ → ℕ → (ℕ → ℕ) → ℕ → ℕ
safestrcpy s t n mem = if n == 0 then mem else copy_string (n - 1) s t mem
