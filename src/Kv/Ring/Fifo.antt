-- ===== src/Kv/Ring/Fifo.antt =====
-- What the users of the ring rely on: order, bounds, exclusion, no lost wake-up and no deadlock.
use cs537_group_projects.Base.{
  ℕ, zero, suc, refl, subst, Bool-cases, ◌==◌, ◌+◌, ◌<◌, ◌≤◌, ◌≡◌, List, ◌++◌, some, true, length,
  arith, length-append, ◌⊎◌, inl, inr, Option-cases, ap, ◌∙◌,
}
use cs537_group_projects.Kv.Ring.{Desc, ring_size}
use cs537_group_projects.Kv.Ring.Threads.{
  Pc, Shared, idle, submit_wait, submit_lock, submit_write, submit_bump, submit_unlock, submit_post,
  get_wait, get_take, submit_take, get_lock, get_read, get_bump, get_unlock, get_post, Move,
  submit_enter, submit_store, submit_advance, submit_leave, submit_signal, get_enter, get_load,
  get_advance, get_leave, get_signal, System, Reach,
}
use cs537_group_projects.Kv.Ring.Window.{window, length-window}
use cs537_group_projects.Kv.Ring.Invariant.{
  Reach-Inv, submitting, getting, slot_taken, item_taken, slot_unposted, item_unposted, sum,
  sum-zero,
}

-- Whatever the interleaving, the descriptors that `ring_get` has returned are the first ones that
-- were submitted, in order, each once and unchanged; at most `ring_size` are under way.
pub got_prefix_sent :
    {n : ℕ} {s : System}
    → Reach n s
    → (rest : List Desc) × (s.mem.sent ≡ s.mem.got ++ rest) × (length rest ≤ ring_size)
got_prefix_sent {n} {s} r =
    let inv = Reach-Inv r in
    (
      window s.mem.buffer s.mem.c_tail inv.len,
      inv.content,
      omega (arith, inv.slots, length-window s.mem.buffer s.mem.c_tail inv.len),
    )

-- No two threads are between the lock and the unlock of one mutex.
pub mutual_exclusion :
    {n : ℕ} {s : System} (i j : ℕ)
    → Reach n s
    → (submitting (s.pc i) ≡ true) × (submitting (s.pc j) ≡ true)
      ⊎ (getting (s.pc i) ≡ true) × (getting (s.pc j) ≡ true)
    → i ≡ j
mutual_exclusion {s} i j r (inl (a, b)) =
    let inv = Reach-Inv r in ground (arith, inv.s_held i a, inv.s_held j b)
mutual_exclusion {s} i j r (inr (a, b)) =
    let inv = Reach-Inv r in ground (arith, inv.g_held i a, inv.g_held j b)

-- A thread that stands outside every call, or at the wait with which its call begins.
abbrev pub IsResting : Pc → Type 0
IsResting idle = Unit
IsResting (submit_wait _) = Unit
IsResting get_wait = Unit
IsResting _ = ⊥

ℕ-cases : (n : ℕ) → (n ≡ 0) ⊎ ((m : ℕ) × (n ≡ suc m))
ℕ-cases zero = inl refl
ℕ-cases (suc n) = inr (n, refl)

resting_weightless :
    (p : Pc)
    → IsResting p
    → (slot_taken p ≡ 0) × (item_taken p ≡ 0) × (slot_unposted p ≡ 0) × (item_unposted p ≡ 0)
resting_weightless idle h = omega arith
resting_weightless p h = ground arith

-- Once every thread rests, `sem_not_empty` counts exactly the descriptors that were submitted and
-- not taken, and `sem_not_full` the free slots: a thread waits only on a ring that is truly empty,
-- or truly full.
semaphores_exact :
    {n : ℕ} {s : System}
    → Reach n s
    → ((i : ℕ) → i < n → IsResting (s.pc i))
    → (length s.mem.got + s.mem.sem_not_empty ≡ length s.mem.sent)
      × (length s.mem.sent + s.mem.sem_not_full ≡ length s.mem.got + ring_size)
semaphores_exact {n} {s} r rest =
    let inv = Reach-Inv r in
    let total : length s.mem.sent ≡ length s.mem.got + inv.len =
      ap length inv.content
      ∙ length-append s.mem.got (window s.mem.buffer s.mem.c_tail inv.len)
      ∙ rw (length-window s.mem.buffer s.mem.c_tail inv.len) in
    omega (
      arith,
      inv.slots,
      inv.items,
      resting slot_taken (λ p h. (resting_weightless p h).0),
      resting item_taken (λ p h. (resting_weightless p h).1),
      resting slot_unposted (λ p h. (resting_weightless p h).2),
      resting item_unposted (λ p h. (resting_weightless p h).3),
    )
  where
    resting : (weight : Pc → ℕ) → ((p : Pc) → IsResting p → weight p ≡ 0) → sum weight n s.pc ≡ 0
    resting weight h = sum-zero weight n s.pc (λ i lt. h (s.pc i) (rest i lt))

-- A thread that is inside a call and can take its next step.
abbrev pub CanAdvance : ℕ → Shared → Pc → Type 0
CanAdvance j m p = ¬ IsResting p × (m' : Shared) × (q : Pc) × Move j m p m' q

-- A thread that holds a mutex is never held up.
submitting-CanAdvance : (j : ℕ) (m : Shared) (p : Pc) → submitting p ≡ true → CanAdvance j m p
submitting-CanAdvance j m (submit_write bd) h = (λ a. a, _, _, submit_store)
submitting-CanAdvance j m (submit_bump bd) h = (λ a. a, _, _, submit_advance)
submitting-CanAdvance j m submit_unlock h = (λ a. a, _, _, submit_leave)
submitting-CanAdvance j m p h = absurd (ground arith)

getting-CanAdvance : (j : ℕ) (m : Shared) (p : Pc) → getting p ≡ true → CanAdvance j m p
getting-CanAdvance j m get_read h = (λ a. a, _, _, get_load)
getting-CanAdvance j m (get_bump bd) h = (λ a. a, _, _, get_advance)
getting-CanAdvance j m get_unlock h = (λ a. a, _, _, get_leave)
getting-CanAdvance j m p h = absurd (ground arith)

-- Inside a call only another thread's mutex holds a thread up.
advance_or_held :
    (i : ℕ) (m : Shared) (p : Pc)
    → ¬ IsResting p
    → CanAdvance i m p ⊎ ((j : ℕ) × (m.s_mutex ≡ some j)) ⊎ ((j : ℕ) × (m.g_mutex ≡ some j))
advance_or_held i m idle busy = absurd (busy tt)
advance_or_held i m (submit_wait bd) busy = absurd (busy tt)
advance_or_held i m get_wait busy = absurd (busy tt)
advance_or_held i m (submit_lock bd) busy = elim (Option-cases m.s_mutex) [
  | inl free ↦ inl (busy, _, _, submit_enter free)
  | inr held ↦ inr (inl held)
]
advance_or_held i m get_lock busy = elim (Option-cases m.g_mutex) [
  | inl free ↦ inl (busy, _, _, get_enter free)
  | inr held ↦ inr (inr held)
]
advance_or_held i m (submit_write bd) busy = inl (busy, _, _, submit_store)
advance_or_held i m (submit_bump bd) busy = inl (busy, _, _, submit_advance)
advance_or_held i m submit_unlock busy = inl (busy, _, _, submit_leave)
advance_or_held i m submit_post busy = inl (busy, _, _, submit_signal)
advance_or_held i m get_read busy = inl (busy, _, _, get_load)
advance_or_held i m (get_bump bd) busy = inl (busy, _, _, get_advance)
advance_or_held i m get_unlock busy = inl (busy, _, _, get_leave)
advance_or_held i m get_post busy = inl (busy, _, _, get_signal)

-- Past the first waits, a thread can take its next step, or the holder of a mutex can.
past_waits :
    {n : ℕ} {s : System} (i : ℕ)
    → Reach n s
    → i < n
    → ¬ IsResting (s.pc i)
    → (j : ℕ) × (j < n) × CanAdvance j s.mem (s.pc j)
past_waits {s} i r h busy =
    let inv = Reach-Inv r in
    elim (advance_or_held i s.mem (s.pc i) busy) [
      | inl moves ↦ (i, h, moves)
      | inr (inl (j, held)) ↦
          (j, (inv.s_owner j held).0, submitting-CanAdvance j s.mem (s.pc j) (inv.s_owner j held).1)
      | inr (inr (j, held)) ↦
          (j, (inv.g_owner j held).0, getting-CanAdvance j s.mem (s.pc j) (inv.g_owner j held).1)
    ]

-- Where a thread stands in its call.
abbrev pub IsInCall : Pc → Type 0
IsInCall idle = ⊥
IsInCall _ = Unit

abbrev pub WaitsToGet : Pc → Type 0
WaitsToGet get_wait = Unit
WaitsToGet _ = ⊥

abbrev pub WaitsToSubmit : Pc → Type 0
WaitsToSubmit (submit_wait _) = Unit
WaitsToSubmit _ = ⊥

-- A thread inside a call that can take its next step, from its wait included.
abbrev pub CanStep : ℕ → Shared → Pc → Type 0
CanStep j m p = IsInCall p × (m' : Shared) × (q : Pc) × Move j m p m' q

advance-CanStep : (j : ℕ) (m : Shared) (p : Pc) → CanAdvance j m p → CanStep j m p
advance-CanStep j m idle (busy, rest, q, move) = absurd (busy tt)
advance-CanStep j m p (busy, rest, q, move) = (ground arith, rest, q, move)

rests_or_not : (p : Pc) → IsResting p ⊎ (¬ IsResting p)
rests_or_not idle = inl tt
rests_or_not (submit_wait bd) = inl tt
rests_or_not get_wait = inl tt
rests_or_not p = inr (λ h. h)

all_rest :
    (n : ℕ) (pc : ℕ → Pc)
    → ((j : ℕ) → j < n → IsResting (pc j)) ⊎ ((j : ℕ) × (j < n) × (¬ IsResting (pc j)))
all_rest zero pc = inl (λ j h. absurd (omega (arith, h)))
all_rest (suc n) pc = elim (rests_or_not (pc n)) [
  | inr busy ↦ inr (n, omega arith, busy)
  | inl last ↦ elim (all_rest n pc) [
    | inr (j, h, busy) ↦ inr (j, omega (arith, h), busy)
    | inl rest ↦ inl (λ j h. elim (Bool-cases (j == n)) [
      | inl here ↦
          let same : n ≡ j = ground (arith, here) in subst (λ k. IsResting (pc k)) same last
      | inr other ↦ rest j (ground (arith, h, other))
    ])
  ]
]

at_wait :
    (i : ℕ) (m : Shared) (p : Pc)
    → IsResting p
    → IsInCall p
    → CanStep i m p
      ⊎ (WaitsToGet p × (m.sem_not_empty ≡ 0))
      ⊎ (WaitsToSubmit p × (m.sem_not_full ≡ 0))
at_wait i m get_wait rest called = elim (ℕ-cases m.sem_not_empty) [
  | inl empty ↦ inr (inl (tt, empty))
  | inr (c, more) ↦ inl (tt, _, _, get_take more)
]
at_wait i m (submit_wait bd) rest called = elim (ℕ-cases m.sem_not_full) [
  | inl full ↦ inr (inr (tt, full))
  | inr (c, more) ↦ inl (tt, _, _, submit_take more)
]
at_wait i m idle rest called = absurd called
at_wait i m p rest called = absurd rest

-- No deadlock, for any interleaving: while a thread is inside a call, some thread inside a call can
-- take its next step; or else every thread stands outside every call or at the wait with which its
-- call begins, and that thread waits to take from a ring that has nothing, all that was submitted
-- being taken, or to submit to a ring that is full.
pub no_deadlock :
    {n : ℕ} {s : System} (i : ℕ)
    → Reach n s
    → i < n
    → IsInCall (s.pc i)
    → ((j : ℕ) × (j < n) × CanStep j s.mem (s.pc j))
      ⊎ (((j : ℕ) → j < n → IsResting (s.pc j))
          × ((WaitsToGet (s.pc i) × (length s.mem.sent ≡ length s.mem.got))
              ⊎ (WaitsToSubmit (s.pc i) × (length s.mem.sent ≡ length s.mem.got + ring_size))))
no_deadlock {n} {s} i r h called = elim (all_rest n s.pc) [
  | inr (j, inside, busy) ↦
      let (k, k_inside, advances) = past_waits j r inside busy in
      inl (k, k_inside, advance-CanStep k s.mem (s.pc k) advances)
  | inl rest ↦
      let (items, slots) = semaphores_exact r rest in
      elim (at_wait i s.mem (s.pc i) (rest i h) called) [
        | inl steps ↦ inl (i, h, steps)
        | inr (inl (gets, empty)) ↦ inr (rest, inl (gets, omega (arith, items, empty)))
        | inr (inr (submits, full)) ↦ inr (rest, inr (submits, omega (arith, slots, full)))
      ]
]
