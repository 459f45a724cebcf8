-- ===== src/Kv/Client/Parts.antt =====
-- `start_threads` of p6/client.c: the parts of the requests and of the shared memory.
use native.Mathlib.Nat.{mul-le-mul_right, suc-mul, mul-div-le, mod-add-div}
use cs537_group_projects.Base.{
  ℕ, zero, suc, ◌+◌, ◌-◌, ◌*◌, ◌/◌, ◌%◌, ◌<◌, ◌≤◌, ◌≡◌, ap, ◌∙◌, List, [], ◌∷◌, some, get_elem?,
  arith,
}
use cs537_group_projects.Kv.Ring.{Desc}
use cs537_group_projects.Kv.Client.{Context, Request, desc_bytes, start_context}

-- The size of the shared memory, of which the ring takes `ring_bytes`.
unfoldable pub shm_size : ℕ → ℕ → ℕ → ℕ
shm_size ring_bytes num_threads win_size = ring_bytes + num_threads * win_size * desc_bytes

-- The contexts from thread `i` on, with `left` threads to go, where the requests and the results of
-- that thread begin at `r`.
unfoldable pub start_from : ℕ → ℕ → ℕ → ℕ → ℕ → ℕ → (ℕ → Request) → (ℕ → Desc) → List Context
start_from zero i r per win ring_bytes reqs res = []
start_from (suc left) i r per win ring_bytes reqs res =
    start_context per (λ j. reqs (r + j)) win (ring_bytes + i * win * desc_bytes) (λ j. res (r + j))
    ∷ start_from left (suc i) (r + per) per win ring_bytes reqs res

unfoldable pub start_threads : ℕ → ℕ → ℕ → ℕ → (ℕ → Request) → (ℕ → Desc) → List Context
start_threads num_requests num_threads win ring_bytes reqs res =
    start_from num_threads 0 0 (num_requests / num_threads) win ring_bytes reqs res

-- The context of thread `i` where its part begins at `r`.
abbrev pub part : ℕ → ℕ → ℕ → ℕ → ℕ → (ℕ → Request) → (ℕ → Desc) → Context
part per win ring_bytes i r reqs res =
    start_context per (λ j. reqs (r + j)) win (ring_bytes + i * win * desc_bytes) (λ j. res (r + j))

start_from-get :
    (left i r per win ring_bytes : ℕ) (reqs : ℕ → Request) (res : ℕ → Desc) (k : ℕ)
    → k < left
    → get_elem? (start_from left i r per win ring_bytes reqs res) k
      ≡ some (part per win ring_bytes (i + k) (r + k * per) reqs res)
unfolding start_from
start_from-get zero i r per win ring_bytes reqs res k h = absurd (omega (arith, h))
start_from-get (suc left) i r per win ring_bytes reqs res zero h =
    let place : i ≡ i + 0 = omega arith in
    let start : r ≡ r + 0 * per = omega arith in
    ap (λ x. some (part per win ring_bytes x r reqs res)) place
    ∙ ap (λ x. some (part per win ring_bytes (i + 0) x reqs res)) start
start_from-get (suc left) i r per win ring_bytes reqs res (suc k) h =
    let place : suc i + k ≡ i + suc k = omega arith in
    let start : r + per + k * per ≡ r + suc k * per = omega (arith, suc-mul k per) in
    start_from-get left (suc i) (r + per) per win ring_bytes reqs res k (omega (arith, h))
    ∙ ap (λ x. some (part per win ring_bytes x (r + per + k * per) reqs res)) place
    ∙ ap (λ x. some (part per win ring_bytes (i + suc k) x reqs res)) start

-- The parts that `start_threads` gives to two threads, the first before the second: their boards lie
-- one behind the other in the shared memory, and so do their requests among the requests; each thread
-- has the `num_requests / num_threads` requests of its part, in order.
pub threads_apart :
    (n t win ring_bytes : ℕ) (reqs : ℕ → Request) (res : ℕ → Desc) (i j : ℕ)
    → i < j
    → j < t
    → (c : Context) × (d : Context) × (get_elem? (start_threads n t win ring_bytes reqs res) i
        ≡ some c)
      × (get_elem? (start_threads n t win ring_bytes reqs res) j ≡ some d)
      × (c.comp_off + c.win_size * desc_bytes ≤ d.comp_off)
      × (d.comp_off + d.win_size * desc_bytes ≤ shm_size ring_bytes t win)
      × ((k : ℕ) → c.reqs k ≡ reqs (i * (n / t) + k))
      × ((k : ℕ) → d.reqs k ≡ reqs (j * (n / t) + k))
      × (i * (n / t) + c.num_reqs ≤ j * (n / t))
      × (j * (n / t) + d.num_reqs ≤ n)
unfolding start_threads shm_size
threads_apart n t win ring_bytes reqs res i j lt inside =
    let per = n / t in
    let first = start_from-get t 0 0 per win ring_bytes reqs res i (omega (arith, lt, inside)) in
    let second = start_from-get t 0 0 per win ring_bytes reqs res j inside in
    let boards : suc i * win ≤ j * win = mul-le-mul_right win lt in
    let memory : suc j * win ≤ t * win = mul-le-mul_right win inside in
    let parts : suc i * per ≤ j * per = mul-le-mul_right per lt in
    let all : suc j * per ≤ t * per = mul-le-mul_right per inside in
    (
      part per win ring_bytes (0 + i) (0 + i * per) reqs res,
      part per win ring_bytes (0 + j) (0 + j * per) reqs res,
      first,
      second,
      omega (arith, boards, suc-mul i win),
      omega (arith, memory, suc-mul j win),
      λ k. ap (λ x. reqs (x + k)) (omega arith),
      λ k. ap (λ x. reqs (x + k)) (omega arith),
      omega (arith, parts, suc-mul i per),
      omega (arith, all, suc-mul j per, mul-div-le n t),
    )

-- The requests behind the last part: no thread has them.
pub left_over : (n t : ℕ) → n - t * (n / t) ≡ n % t
left_over n t = omega (arith, mod-add-div n t)
