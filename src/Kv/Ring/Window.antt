-- ===== src/Kv/Ring/Window.antt =====
-- The descriptors from an index on, going round at the end of `buffer`.
use cs537_group_projects.Base.{
  ℕ, zero, suc, ◌+◌, ◌%◌, ◌<◌, ◌≡◌, refl, ap, List, [], ◌∷◌, ◌++◌, get_or, set, arith, length,
  get_or-set_ne,
}
use cs537_group_projects.Kv.Ring.{Desc, zero_desc, ring_size}
use cs537_group_projects.Kv.Ring.Threads.{next_index}

abbrev pub window : List Desc → ℕ → ℕ → List Desc
window buf h zero = []
window buf h (suc n) = get_or buf h zero_desc ∷ window buf (next_index h) n

pub length-window : (buf : List Desc) (h n : ℕ) → length (window buf h n) ≡ n
length-window buf h zero = refl
length-window buf h (suc n) = ap suc (length-window buf (next_index h) n)

-- A write to the first slot behind a window does not touch it.
pub window-set :
    (buf : List Desc) (bd : Desc) (h n i : ℕ)
    → n < ring_size
    → h < ring_size
    → i ≡ (h + n) % ring_size
    → window (set buf i bd) h n ≡ window buf h n
window-set buf bd h zero i room hh e = refl
window-set buf bd h (suc n) i room hh e = rw (
  get_or-set_ne buf i h bd zero_desc (omega arith),
  window-set buf bd (next_index h) n i (omega arith) (omega arith) (omega arith),
)

-- A window with the slot behind it.
pub window-snoc :
    (buf : List Desc) (h n : ℕ)
    → h < ring_size
    → window buf h (suc n) ≡ window buf h n ++ (get_or buf ((h + n) % ring_size) zero_desc ∷ [])
window-snoc buf h zero hh = ap (λ j. get_or buf j zero_desc ∷ []) (omega arith)
window-snoc buf h (suc n) hh =
    let e : (next_index h + n) % ring_size ≡ (h + suc n) % ring_size = omega arith in
    rw (← e) (ap (λ l. get_or buf h zero_desc ∷ l) (window-snoc buf (next_index h) n (omega arith)))
