-- ===== src/Xv6/Pipe/Fifo.antt =====
-- `pipewrite` and `piperead` of p5/xv6-public/pipe.c as operations on a bounded queue of bytes.
use cs537_group_projects.Base.{
  update, update-there, ℕ, zero, suc, ◌+◌, ◌%◌, ◌^◌, ◌<◌, ◌≤◌, ◌≡◌, ◌≢◌, refl, sym, ap, ap₂, ◌∙◌,
  List, [], ◌∷◌, ◌++◌, arith, Bool, true, false, not, ◌||◌, ◌&&◌, Bool-cases, inl, inr, ◌⊎◌, ◌==◌,
  length, if◌then◌else◌,
}
use mathlib.Core.List.{append_assoc, append-nil}
use cs537_group_projects.Xv6.Pipe.{
  Pipe, pipe_size, push_byte, Writes, write_fails, write_sleeps, written, write_from, pipewrite,
  read_from, Reads, read_fails, read_sleeps, bytes, piperead,
}
use cs537_group_projects.Xv6.Pipe.Window.{window, used, queue, Bounded, window-put, window-snoc}

used-push :
    (p : Pipe) (c : ℕ) → Bounded p → used p < pipe_size → used (push_byte p c) ≡ suc (used p)
unfolding used push_byte
used-push p c b room = omega (arith, b.read_word, b.write_word, room)

push_byte-Bounded : (p : Pipe) (c : ℕ) → Bounded p → used p < pipe_size → Bounded (push_byte p c)
unfolding push_byte
push_byte-Bounded p c b room = record {
  read_word = b.read_word;
  write_word = omega arith;
  room = omega (arith, used-push p c b room, room);
}

-- A byte that is pushed is the last.
queue-push :
    (p : Pipe) (c : ℕ)
    → Bounded p
    → used p < pipe_size
    → queue (push_byte p c) ≡ queue p ++ (c ∷ [])
unfolding push_byte used
queue-push p c b room =
    let last : (p.nread + used p) % pipe_size ≡ p.nwrite % pipe_size =
      omega (arith, b.read_word, b.write_word) in
    let ring = update p.data_at (p.nwrite % pipe_size) c in
    ap (λ n. window n p.nread ring) (used-push p c b room)
    ∙ window-snoc (used p) p.nread ring b.read_word
    ∙ ap₂ (λ bs x. bs ++ (x ∷ []))
        (window-put (used p) p.nread (p.nwrite % pipe_size) c p.data_at b.read_word (omega arith)
          (λ k h e. omega (arith, h, e, last, room)))
        (ap ring last ∙ update-there p.data_at (p.nwrite % pipe_size) c)

-- `count` bytes from byte `i` on.
abbrev pub slice : (ℕ → ℕ) → ℕ → ℕ → List ℕ
slice addr i zero = []
slice addr i (suc count) = addr i ∷ slice addr (suc i) count

abbrev pub pipe_after : Writes → Pipe
pipe_after (write_fails p) = p
pipe_after (write_sleeps i p) = p
pipe_after (written p) = p

-- Why a write stops after `k` of `left` bytes from byte `i` on.
abbrev pub Stops : Bool → ℕ → ℕ → ℕ → Writes → Type 0
Stops killed left i k (written p) = k ≡ left
Stops killed left i k (write_sleeps j p) =
    (j ≡ i + k) × (k < left) × (used p ≡ pipe_size) × (p.readopen ≡ true) × (killed ≡ false)
Stops killed left i k (write_fails p) =
    (k < left) × (used p ≡ pipe_size) × ((p.readopen ≡ false) ⊎ (killed ≡ true))

abbrev pub Appends : Bool → ℕ → ℕ → (ℕ → ℕ) → Pipe → Writes → Type 0
Appends killed left i addr p r =
    (k : ℕ) × (k ≤ left)
    × Bounded (pipe_after r)
    × (queue (pipe_after r) ≡ queue p ++ slice addr i k)
    × Stops killed left i k r

full_used : (p : Pipe) → Bounded p → p.nwrite ≡ (p.nread + pipe_size) % 2 ^ 32 → used p ≡ pipe_size
unfolding used
full_used p b e = omega (arith, b.read_word, b.write_word, e)

not_full_used :
    (p : Pipe) → Bounded p → p.nwrite ≢ (p.nread + pipe_size) % 2 ^ 32 → used p < pipe_size
unfolding used
not_full_used p b ne = omega (arith, b.read_word, b.write_word, ne, b.room)

stopped-Appends :
    (killed : Bool) (left i : ℕ) (addr : ℕ → ℕ) (p : Pipe)
    → Bounded p
    → used p ≡ pipe_size
    → Appends killed
        (suc left)
        i
        addr
        p
        (if not p.readopen || killed then write_fails p else write_sleeps i p)
stopped-Appends killed left i addr p b full = elim (Bool-cases (not p.readopen || killed)) [
  | inl stop ↦
      rw stop
        (0, omega arith, b, sym (append-nil (queue p)), (omega arith, full, ground (arith, stop)))
  | inr wait ↦ rw wait (
    0,
    omega arith,
    b,
    sym (append-nil (queue p)),
    (omega arith, omega arith, full, ground (arith, wait), ground (arith, wait)),
  )
]

Stops-suc :
    (killed : Bool) (left i k : ℕ) (r : Writes)
    → Stops killed left (suc i) k r
    → Stops killed (suc left) i (suc k) r
Stops-suc killed left i k (written p) e = ap suc e
Stops-suc killed left i k (write_sleeps j p) (at, lt, full, open_end, alive) =
    (omega (arith, at), omega (arith, lt), full, open_end, alive)
Stops-suc killed left i k (write_fails p) (lt, full, why) = (omega (arith, lt), full, why)

one_more :
    (killed : Bool) (left i : ℕ) (addr : ℕ → ℕ) (p : Pipe) (r : Writes)
    → Bounded p
    → used p < pipe_size
    → Appends killed left (suc i) addr (push_byte p (addr i)) r
    → Appends killed (suc left) i addr p r
one_more killed left i addr p r b room (k, le, bounded, same, stops) = (
  suc k,
  omega (arith, le),
  bounded,
  same
      ∙ ap (λ bs. bs ++ slice addr (suc i) k) (queue-push p (addr i) b room)
      ∙ append_assoc (queue p) (addr i ∷ []) (slice addr (suc i) k),
  Stops-suc killed left i k r stops,
)

write_from-Appends :
    (killed : Bool) (left i : ℕ) (addr : ℕ → ℕ) (p : Pipe)
    → Bounded p
    → Appends killed left i addr p (write_from killed left i addr p)
unfolding write_from
write_from-Appends killed zero i addr p b = (0, omega arith, b, sym (append-nil (queue p)), refl)
write_from-Appends killed (suc left) i addr p b =
    elim (Bool-cases (p.nwrite == (p.nread + pipe_size) % 2 ^ 32)) [
      | inl full ↦
          rw full (stopped-Appends killed left i addr p b (full_used p b (ground (arith, full))))
      | inr not_full ↦
          let room = not_full_used p b (λ e. ground (arith, not_full, e)) in
          rw not_full (
            one_more killed left i addr p
              (write_from killed left (suc i) addr (push_byte p (addr i))) b room
              (write_from-Appends killed left (suc i) addr (push_byte p (addr i))
                (push_byte-Bounded p (addr i) b room)))
    ]

-- A read of `left` bytes takes the oldest, all that there are up to `left`.
abbrev pub Takes : ℕ → Pipe → List ℕ × Pipe → Type 0
Takes left p (taken, q) =
    Bounded q
    × (queue p ≡ taken ++ queue q)
    × (length taken ≤ left)
    × (length taken < left → used q ≡ 0)

pull : Pipe → Pipe
pull p = record p { nread = (p.nread + 1) % 2 ^ 32 }

used-pull : (p : Pipe) → Bounded p → p.nread ≢ p.nwrite → used p ≡ suc (used (pull p))
unfolding used pull
used-pull p b ne = omega (arith, b.read_word, b.write_word, ne)

pull-Bounded : (p : Pipe) → Bounded p → p.nread ≢ p.nwrite → Bounded (pull p)
unfolding pull
pull-Bounded p b ne = record {
  read_word = omega arith;
  write_word = b.write_word;
  room = omega (arith, used-pull p b ne, b.room);
}

queue-pull :
    (p : Pipe)
    → Bounded p
    → p.nread ≢ p.nwrite
    → queue p ≡ p.data_at (p.nread % pipe_size) ∷ queue (pull p)
unfolding window pull
queue-pull p b ne = ap (λ n. window n p.nread p.data_at) (used-pull p b ne)

used-empty : (p : Pipe) → Bounded p → p.nread ≡ p.nwrite → used p ≡ 0
unfolding used
used-empty p b e = omega (arith, b.read_word, b.write_word, e)

taken_more :
    (left : ℕ) (p : Pipe) (r : List ℕ × Pipe)
    → Bounded p
    → p.nread ≢ p.nwrite
    → Takes left (pull p) r
    → Takes (suc left) p (p.data_at (p.nread % pipe_size) ∷ r.0, r.1)
taken_more left p (taken, q) b ne (bounded, same, few, all) = (
  bounded,
  queue-pull p b ne ∙ ap (λ bs. p.data_at (p.nread % pipe_size) ∷ bs) same,
  omega (arith, few),
  λ h. all (omega (arith, h)),
)

read_from-Takes : (left : ℕ) (p : Pipe) → Bounded p → Takes left p (read_from left p)
unfolding read_from pull
read_from-Takes zero p b = (b, refl, omega arith, λ h. absurd (omega (arith, h)))
read_from-Takes (suc left) p b = elim (Bool-cases (p.nread == p.nwrite)) [
  | inl empty ↦ rw empty (b, refl, omega arith, λ h. used-empty p b (ground (arith, empty)))
  | inr more ↦
      let ne : p.nread ≢ p.nwrite = λ e. ground (arith, more, e) in
      rw more (
        taken_more left p (read_from left (pull p)) b ne
          (read_from-Takes left (pull p) (pull-Bounded p b ne)))
]

abbrev pub Answers : Bool → ℕ → Pipe → Reads → Type 0
Answers killed n p read_fails = (used p ≡ 0) × (p.writeopen ≡ true) × (killed ≡ true)
Answers killed n p read_sleeps = (used p ≡ 0) × (p.writeopen ≡ true) × (killed ≡ false)
Answers killed n p (bytes taken q) = Takes n p (taken, q)

answered :
    (killed : Bool) (n : ℕ) (p : Pipe) (r : List ℕ × Pipe)
    → Bounded p
    → Takes n p r
    → Answers killed n p (
        if p.nread == p.nwrite && p.writeopen
        then (if killed then read_fails else read_sleeps)
        else bytes r.0 r.1)
answered killed n p (taken, q) b takes = elim (Bool-cases (p.nread == p.nwrite && p.writeopen)) [
  | inr goes ↦ rw goes takes
  | inl waits ↦
      let empty = used-empty p b (ground (arith, waits)) in
      let open_end : p.writeopen ≡ true = ground (arith, waits) in
      rw waits (stopped killed n p empty open_end)
]
  where
    stopped :
        (killed : Bool) (n : ℕ) (p : Pipe)
        → used p ≡ 0
        → p.writeopen ≡ true
        → Answers killed n p (if killed then read_fails else read_sleeps)
    stopped true n p empty open_end = (empty, open_end, refl)
    stopped false n p empty open_end = (empty, open_end, refl)

-- A pipe with at most 512 bytes stays one, and is a queue. A write appends the first bytes of its
-- buffer, in order; it stops before the last only where 512 bytes are in the pipe, asleep while the
-- other end is open and the process is not killed, else with -1. A read takes the oldest bytes,
-- as many as there are up to its count; where there are none and the other end is open it sleeps,
-- or fails if the process is killed.
pub pipe-queue :
    (killed : Bool) (p : Pipe) (addr : ℕ → ℕ) (n m : ℕ)
    → Bounded p
    → Appends killed n 0 addr p (pipewrite killed p addr n)
      × Answers killed m p (piperead killed p m)
unfolding piperead
pipe-queue killed p addr n m b = (
  write_from-Appends killed n 0 addr p b,
  answered killed m p (read_from m p) b (read_from-Takes m p b),
)
