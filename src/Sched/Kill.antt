-- ===== src/Sched/Kill.antt =====
-- `kill` of p5/xv6-public/proc.c.
use cs537_group_projects.Base.{
  ℕ, ◌≡◌, refl, ap, List, [], ◌∷◌, ◌++◌, Option, none, some, Bool, true, false, ◌==◌, if◌then◌else◌,
  arith, Bool-cases, inl, inr, sym, subst,
}
use cs537_group_projects.Sched.Table.{State, is_sleeping, Proc, kill}
use cs537_group_projects.Sched.Priority.{every}

abbrev pub has_other_pid : ℕ → Proc → Bool
has_other_pid pid p = if p.pid == pid then false else true

-- The process marked killed, and woken if it slept.
abbrev pub struck : Proc → Proc
struck p = record p {
  killed = true;
  state = if is_sleeping p.state then State.runnable else p.state;
}

abbrev pub Killed : ℕ → List Proc → Option (List Proc) → Type 0
Killed pid ps none = every (has_other_pid pid) ps ≡ true
Killed pid ps (some qs) =
    (before : List Proc) × (p : Proc) × (after : List Proc) × (every (has_other_pid pid) before
      ≡ true)
    × (p.pid ≡ pid)
    × (ps ≡ before ++ (p ∷ after))
    × (qs ≡ before ++ (struck p ∷ after))

-- What `kill` does with the rest, by the test of the first process.
abbrev kill_rest : Proc → List Proc → Bool → Option (List Proc) → Option (List Proc)
kill_rest p ps hit rest =
    if hit then some (struck p ∷ ps) else elim rest [ none ↦ none | some qs ↦ some (p ∷ qs) ]

kill_behind :
    (pid : ℕ) (p : Proc) (ps : List Proc) (rest : Option (List Proc))
    → (p.pid == pid) ≡ false
    → Killed pid ps rest
    → Killed pid (p ∷ ps) (kill_rest p ps false rest)
unfolding every
kill_behind pid p ps none e h = rw e h
kill_behind pid p ps (some qs) e (before, q, after, others, same, split, struck_there) =
    (p ∷ before, q, after, rw e others, same, ap (λ t. p ∷ t) split, ap (λ t. p ∷ t) struck_there)

-- `kill` returns -1, and changes nothing, only where no slot of the table has the pid; else it
-- marks the first slot that has it as killed, wakes it if it slept, and leaves every other slot as
-- it was.
pub kill-Killed : (pid : ℕ) (ps : List Proc) → Killed pid ps (kill pid ps)
unfolding kill every
kill-Killed pid [] = refl
kill-Killed pid (p ∷ ps) = elim (Bool-cases (p.pid == pid)) [
  | inl e ↦
      subst (λ hit. Killed pid (p ∷ ps) (kill_rest p ps hit (kill pid ps))) (sym e)
        ([], p, ps, refl, ground arith, refl, refl)
  | inr e ↦
      subst (λ hit. Killed pid (p ∷ ps) (kill_rest p ps hit (kill pid ps))) (sym e)
        (kill_behind pid p ps (kill pid ps) e (kill-Killed pid ps))
]
