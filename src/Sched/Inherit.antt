-- ===== src/Sched/Inherit.antt =====
-- Priority inheritance through the mutexes of p5: who holds a mutex runs before its waiters would.
use cs537_group_projects.Base.{
  Option, ℕ, zero, suc, ◌+◌, ◌-◌, ◌<◌, ◌≤◌, ◌≡◌, ◌≢◌, refl, sym, ◌∙◌, ap, ap₂, List, [], ◌∷◌, some,
  true, false, ltb, ◌==◌, arith, get_elem?, get_or, set, take, length, get_or-set_self,
  get_or-set_ne, set-set, set-get_or,
}
use mathlib.Core.Option.{some-injective}
use cs537_group_projects.Sched.Table.{wakeup1, State, is_sleeping, bias, Proc, held, elevate}
use cs537_group_projects.Sched.Mutex.{
  Mutex, hold, macquire_round, release_at, release_locks, mrelease,
}
use cs537_group_projects.Sched.Priority.{every, waits_from, elevate-at_least}
use cs537_group_projects.Sched.Choice.{every-get}

below-bound :
    (v lock : ℕ) (q : Proc)
    → is_sleeping q.state ≡ true
    → q.chan ≡ lock
    → waits_from v lock q ≡ true
    → bias v ≤ bias q.nice
below-bound v lock q reads waits one = ground arith

held_below :
    (table : List Proc) (p q : Proc) (i j lock : ℕ)
    → get_elem? (held p) i ≡ some lock
    → get_elem? table j ≡ some q
    → q.state ≡ State.sleeping
    → q.chan ≡ lock
    → bias (elevate table p).elevated_nice ≤ bias q.nice
held_below table p q i j lock at_i at_j asleep waits =
    let v = (elevate table p).elevated_nice in
    let all_locks : every (λ k. every (waits_from v k) table) (held p) ≡ true =
      ground (arith, elevate-at_least v table p) in
    let all_waiters : every (waits_from v lock) table ≡ true =
      every-get (λ k. every (waits_from v k) table) (held p) i lock all_locks at_i in
    let one : waits_from v lock q ≡ true =
      every-get (waits_from v lock) table j q all_waiters at_j in
    let reads : is_sleeping q.state ≡ true = ap is_sleeping asleep in
    below-bound v lock q reads waits one

take-set :
    (xs : List ℕ) (n x : ℕ) → n < length xs → get_elem? (take (suc n) (set xs n x)) n ≡ some x
take-set [] n x h = absurd (omega arith)
take-set (y ∷ ys) zero x h = refl
take-set (y ∷ ys) (suc n) x h = take-set ys n x (omega arith)

holds :
    (lock : ℕ) (p : Proc)
    → p.num_locks_held < length p.locks_held
    → get_elem? (held (hold lock p)) p.num_locks_held ≡ some lock
holds lock p h =
    ap (λ n. get_elem? (take n (set p.locks_held p.num_locks_held lock)) p.num_locks_held)
      {y = suc p.num_locks_held} (omega arith)
    ∙ take-set p.locks_held p.num_locks_held lock h

-- A process that took a mutex is given an elevated nice of at most the nice of each process of the
-- table that went to sleep on the mutex after it, if its list of locks had room.
pub macquire-inherits :
    (lock : ℕ) (m : Mutex) (p q : Proc) (table : List Proc) (j : ℕ)
    → m.locked ≡ false
    → p.num_locks_held < length p.locks_held
    → get_elem? table j ≡ some (macquire_round lock (macquire_round lock m p).0 q).1
    → bias (elevate table (macquire_round lock m p).1).elevated_nice ≤ bias q.nice
unfolding macquire_round
macquire-inherits lock m p q table j free room at_j = rw free (
    held_below table (hold lock p) (record q { chan = lock; state = State.sleeping })
      p.num_locks_held j lock (holds lock p room) (at_j ∙ ap some (rw free refl)) refl refl)

release_found :
    (r i n lock : ℕ) (p : Proc)
    → i + r ≡ n
    → p.num_locks_held ≡ n + 1
    → ((k : ℕ) → k < n → get_or p.locks_held k 0 ≢ lock)
    → get_or p.locks_held n 0 ≡ lock
    → release_locks (suc r) i lock p ≡ release_at n p
unfolding release_locks
release_found zero i n lock p e count others here =
    let inside : ltb i p.num_locks_held ≡ true = ground arith in
    let found : (get_or p.locks_held i 0 == lock) ≡ true =
      ground (arith, ap (λ k. get_or p.locks_held k 0) {x = i} {y = n} (omega arith)) in
    rw (inside, found) (ap (λ k. release_at k p) (omega arith))
release_found (suc r) i n lock p e count others here =
    let inside : ltb i p.num_locks_held ≡ true = ground arith in
    let other : (get_or p.locks_held i 0 == lock) ≡ false =
      ground (arith, others i (omega arith)) in
    rw (inside, other) (release_found r (i + 1) n lock p (omega arith) count others here)

-- What is left of the array of locks.
released :
    (lock : ℕ) (p : Proc)
    → get_or p.locks_held p.num_locks_held 0 ≡ 0
    → release_at p.num_locks_held (hold lock p) ≡ p
released lock p clear =
    let xs = p.locks_held in
    let n = p.num_locks_held in
    let last : n + 1 - 1 ≡ n = omega arith in
    let array : set (set (set xs n lock) n (get_or (set xs n lock) (n + 1 - 1) 0)) (n + 1 - 1) 0
        ≡ xs =
      ap (λ l. set (set (set xs n lock) n (get_or (set xs n lock) l 0)) l 0) last
      ∙ set-set (set xs n lock) n (get_or (set xs n lock) n 0) 0
      ∙ set-set xs n lock 0
      ∙ ap (set xs n) (sym clear)
      ∙ set-get_or xs n 0 in
    ap₂ (λ a k. record p { locks_held = a; num_locks_held = k }) array last

release-hold :
    (lock : ℕ) (p : Proc)
    → p.num_locks_held < length p.locks_held
    → get_or p.locks_held p.num_locks_held 0 ≡ 0
    → ((k : ℕ) → k < p.num_locks_held → get_or p.locks_held k 0 ≢ lock)
    → release_locks (p.num_locks_held + 1) 0 lock (hold lock p) ≡ p
release-hold lock p room clear absent =
    let n = p.num_locks_held in
    ap (λ r. release_locks r 0 lock (hold lock p)) {y = suc n} (omega arith)
    ∙ release_found n 0 n lock (hold lock p) (omega arith) refl
        (λ k lt e. absent k lt (
          sym (get_or-set_ne p.locks_held n k lock 0 (λ same. absurd (omega (arith, same, lt))))
          ∙ e))
        (get_or-set_self p.locks_held n lock 0 room)
    ∙ released lock p clear

-- `sys_mrelease` of a mutex that the process has just taken with `sys_macquire` gives it back the
-- locks it held before, if it did not hold the mutex, and its array of locks had a free slot of 0.
pub mrelease-macquire :
    (lock : ℕ) (m n : Mutex) (p : Proc) (others : List Proc)
    → m.locked ≡ false
    → p.num_locks_held < length p.locks_held
    → get_or p.locks_held p.num_locks_held 0 ≡ 0
    → ((k : ℕ) → k < p.num_locks_held → get_or p.locks_held k 0 ≢ lock)
    → (mrelease lock n (macquire_round lock m p).1 others).1 ≡ p
unfolding macquire_round mrelease
mrelease-macquire lock m n p others free room clear absent =
    rw free (release-hold lock p room clear absent)

get-wakeup1 :
    (lock : ℕ) (ps : List Proc) (j : ℕ) (q : Proc)
    → get_elem? ps j ≡ some q
    → q.state ≡ State.sleeping
    → q.chan ≡ lock
    → get_elem? (wakeup1 lock ps) j ≡ some (record q { state = State.runnable })
unfolding wakeup1
get-wakeup1 lock [] j q e s c = absurd (ground arith)
get-wakeup1 lock (x ∷ ps) zero q e s c =
    let same : x ≡ q = some-injective x q e in
    let asleep : is_sleeping x.state ≡ true =
      ap (λ r. is_sleeping r.state) same ∙ ap is_sleeping s in
    let here : (x.chan == lock) ≡ true = ground (arith, ap (λ r. r.chan) same, c) in
    let woken : Proc → Option Proc = λ r. some (record r { state = State.runnable }) in
    rw (asleep, here) (ap woken same)
get-wakeup1 lock (x ∷ ps) (suc j) q e s c = get-wakeup1 lock ps j q e s c

-- `sys_mrelease` leaves the mutex unlocked, and each process of the table that slept on it can run
-- and take it in the next round of its loop.
pub mrelease_wakes :
    (lock : ℕ) (m : Mutex) (p : Proc) (others : List Proc) (j : ℕ) (q : Proc)
    → get_elem? others j ≡ some q
    → q.state ≡ State.sleeping
    → q.chan ≡ lock
    → (get_elem? (mrelease lock m p others).2 j ≡ some (record q { state = State.runnable }))
      × ((macquire_round lock (mrelease lock m p others).0 q).0.locked ≡ true)
      × ((macquire_round lock (mrelease lock m p others).0 q).0.owner ≡ q.pid)
unfolding mrelease macquire_round
mrelease_wakes lock m p others j q e s c = (get-wakeup1 lock others j q e s c, refl, refl)
