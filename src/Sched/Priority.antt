-- ===== src/Sched/Priority.antt =====
-- `findminnice` and the choice of `scheduler` in p5/xv6-public/proc.c: a process runs at the least
-- nice value of its own and of the processes that wait for its locks.

use cs537_group_projects.Base.{
  ℕ, ◌≡◌, refl, ◌∙◌, ap, List, [], ◌∷◌, Bool, true, false, ◌==◌, if◌then◌else◌, arith, Bool-cases,
  inl, inr,
}
use cs537_group_projects.Sched.Table.{
  lt_int, is_sleeping, is_runnable, Proc, lower, lower_all, held, elevate, find_min, findminnice,
}

-- `v ≤ a` of two `int`s
abbrev pub at_least : ℕ → ℕ → Bool
at_least v a = if lt_int a v then false else true

abbrev pub both : Bool → Bool → Bool
both a b = if a then b else false

unfoldable pub every {ℓ} : {A : Type ℓ} → (A → Bool) → List A → Bool
every test [] = true
every test (x ∷ xs) = both (test x) (every test xs)

-- `q` does not wait for the lock, or its nice is at least `v`.
abbrev pub waits_from : ℕ → ℕ → Proc → Bool
waits_from v lock q =
    if is_sleeping q.state then (if q.chan == lock then at_least v q.nice else true) else true

both_assoc : (a b c : Bool) → both (both a b) c ≡ both a (both b c)
both_assoc true b c = refl
both_assoc false b c = refl

at_least_min :
    (v a b : ℕ) → at_least v (if lt_int a b then a else b) ≡ both (at_least v b) (at_least v a)
at_least_min v a b = ground arith

both-true : (a : Bool) → a ≡ both a true
both-true true = refl
both-true false = refl

lower_step :
    (v n e : ℕ) (s c : Bool)
    → at_least v (if s then (if c then (if lt_int n e then n else e) else e) else e)
      ≡ both (at_least v e) (if s then (if c then at_least v n else true) else true)
lower_step v n e true true = at_least_min v n e
lower_step v n e true false = both-true (at_least v e)
lower_step v n e false c = both-true (at_least v e)

lower-at_least :
    (v lock : ℕ) (table : List Proc) (e : ℕ)
    → at_least v (lower lock table e) ≡ both (at_least v e) (every (waits_from v lock) table)
unfolding lower every
lower-at_least v lock [] e = both-true (at_least v e)
lower-at_least v lock (q ∷ qs) e =
    lower-at_least v lock qs (
      if is_sleeping q.state
      then (if q.chan == lock then (if lt_int q.nice e then q.nice else e) else e)
      else e)
    ∙ ap (λ (b : Bool). both b (every (waits_from v lock) qs))
        (lower_step v q.nice e (is_sleeping q.state) (q.chan == lock))
    ∙ both_assoc (at_least v e) (waits_from v lock q) (every (waits_from v lock) qs)

lower_all-at_least :
    (v : ℕ) (locks : List ℕ) (table : List Proc) (e : ℕ)
    → at_least v (lower_all locks table e)
      ≡ both (at_least v e) (every (λ lock. every (waits_from v lock) table) locks)
unfolding lower_all every
lower_all-at_least v [] table e = both-true (at_least v e)
lower_all-at_least v (lock ∷ locks) table e =
    lower_all-at_least v locks table (lower lock table e)
    ∙ ap (λ (b : Bool). both b (every (λ k. every (waits_from v k) table) locks))
        (lower-at_least v lock table e)
    ∙ both_assoc (at_least v e) (every (waits_from v lock) table)
        (every (λ k. every (waits_from v k) table) locks)

-- The elevated nice that `findminnice` gives a process is the least of its own nice and of the
-- nices of all the processes that sleep on a lock it holds: it is at least `v` exactly where all of
-- these are, for each `v`.
pub elevate-at_least :
    (v : ℕ) (table : List Proc) (p : Proc)
    → at_least v (elevate table p).elevated_nice
      ≡ both (at_least v p.nice) (every (λ lock. every (waits_from v lock) table) (held p))
unfolding elevate
elevate-at_least v table p = lower_all-at_least v (held p) table p.nice

-- The processes that can run, at an elevated nice of at least `v`.
abbrev pub runs_from : ℕ → Proc → Bool
runs_from v p = if is_runnable p.state then at_least v p.elevated_nice else true

find_min-at_least :
    (v : ℕ) (table ps : List Proc) (m : ℕ)
    → at_least v (find_min table ps m).1
      ≡ both (at_least v m) (every (runs_from v) (find_min table ps m).0)
unfolding find_min every
find_min-at_least v table [] m = both-true (at_least v m)
find_min-at_least v table (p ∷ ps) m =
    let raised = (elevate table p).elevated_nice in
    let least = if lt_int raised m then raised else m in
    elim (Bool-cases (is_runnable p.state)) [
      | inl e ↦
          rw (e, e)
            (find_min-at_least v table ps least
              ∙ ap (λ (b : Bool). both b (every (runs_from v) (find_min table ps least).0))
                  (at_least_min v raised m)
              ∙ both_assoc (at_least v m) (at_least v raised)
                  (every (runs_from v) (find_min table ps least).0))
      | inr e ↦ rw (e, e) (find_min-at_least v table ps m)
    ]

-- The value that `findminnice` returns is the least of 19 and of the elevated nices, in the new
-- table, of the processes that can run: it is at least `v` exactly where all of these are.
pub findminnice-at_least :
    (v : ℕ) (table : List Proc)
    → at_least v (findminnice table).1
      ≡ both (at_least v 19) (every (runs_from v) (findminnice table).0)
unfolding findminnice
findminnice-at_least v table = find_min-at_least v table table 19
