-- ===== src/Sched/Wakeup.antt =====
-- What a timer tick and `kill` of p5/xv6-public/proc.c do to the processes.
use cs537_group_projects.Base.{
  ℕ, zero, suc, ◌+◌, ◌-◌, ◌%◌, ◌^◌, ◌<◌, ◌≤◌, ◌≡◌, ◌∙◌, ap, List, [], ◌∷◌, some, Bool, true, false,
  ◌==◌, if◌then◌else◌, arith, get_elem?,
}
use mathlib.Core.Option.{some-injective}
use cs537_group_projects.Sched.Table.{State, is_sleeping, Proc, notify_one, sleep_proc_notify}

abbrev pub ticks_on : ℕ → ℕ → List Proc → List Proc
ticks_on zero ticks ps = ps
ticks_on (suc k) ticks ps = sleep_proc_notify ticks (ticks_on k ticks ps)

get-notify :
    (ticks : ℕ) (ps : List Proc) (i : ℕ) (p : Proc)
    → get_elem? ps i ≡ some p
    → get_elem? (sleep_proc_notify ticks ps) i ≡ some (notify_one ticks p)
unfolding sleep_proc_notify
get-notify ticks [] i p e = absurd (ground arith)
get-notify ticks (q ∷ qs) zero p e = ap (λ r. some (notify_one ticks r)) (some-injective q p e)
get-notify ticks (q ∷ qs) (suc i) p e = get-notify ticks qs i p e

-- The process after `k` ticks.
abbrev pub slept : ℕ → Proc → Proc
slept k p = record p { sleepticks = p.sleepticks - k }

-- The sleeper of a tick, by its test.
abbrev ticked : Bool → Proc → Proc
ticked last p =
    if last
    then record p { state = State.runnable }
    else record p { sleepticks = (p.sleepticks + 2 ^ 32 - 1) % 2 ^ 32 }

notify-sleeper :
    (ticks : ℕ) (p : Proc)
    → p.state ≡ State.sleeping
    → p.chan ≡ ticks
    → notify_one ticks p ≡ ticked (p.sleepticks == 0) p
notify-sleeper ticks p s c =
    let asleep : is_sleeping p.state ≡ true = ap is_sleeping s in
    let here : (p.chan == ticks) ≡ true = ground arith in
    ap
      (λ (b : Bool). if b then (if p.chan == ticks then ticked (p.sleepticks == 0) p else p) else p)
      asleep
    ∙ ap (λ (b : Bool). if b then ticked (p.sleepticks == 0) p else p) here

tick-one :
    (ticks : ℕ) (p : Proc)
    → p.state ≡ State.sleeping
    → p.chan ≡ ticks
    → 0 < p.sleepticks
    → notify_one ticks p ≡ record p { sleepticks = (p.sleepticks + 2 ^ 32 - 1) % 2 ^ 32 }
tick-one ticks p s c lt =
    let more : (p.sleepticks == 0) ≡ false = ground arith in
    notify-sleeper ticks p s c ∙ ap (λ b. ticked b p) more

tick-last :
    (ticks : ℕ) (p : Proc)
    → p.state ≡ State.sleeping
    → p.chan ≡ ticks
    → p.sleepticks ≡ 0
    → notify_one ticks p ≡ record p { state = State.runnable }
tick-last ticks p s c e =
    let last : (p.sleepticks == 0) ≡ true = ground arith in
    notify-sleeper ticks p s c ∙ ap (λ b. ticked b p) last

notify-slept :
    (ticks k : ℕ) (p : Proc)
    → p.state ≡ State.sleeping
    → p.chan ≡ ticks
    → p.sleepticks < 2 ^ 32
    → k < p.sleepticks
    → notify_one ticks (slept k p) ≡ slept (suc k) p
notify-slept ticks k p s c w lt =
    tick-one ticks (slept k p) s c (omega arith)
    ∙ ap (λ t. record p { sleepticks = t }) (omega arith)

-- A process that sleeps on `ticks` is still asleep after each of the next `sleepticks` timer ticks,
-- with one tick less left after each.
pub asleep_until :
    (ticks k : ℕ) (ps : List Proc) (i : ℕ) (p : Proc)
    → get_elem? ps i ≡ some p
    → p.state ≡ State.sleeping
    → p.chan ≡ ticks
    → p.sleepticks < 2 ^ 32
    → k ≤ p.sleepticks
    → get_elem? (ticks_on k ticks ps) i ≡ some (slept k p)
asleep_until ticks zero ps i p e s c w le =
    e ∙ ap (λ t. some (record p { sleepticks = t })) (omega arith)
asleep_until ticks (suc k) ps i p e s c w le =
    get-notify ticks (ticks_on k ticks ps) i (slept k p)
      (asleep_until ticks k ps i p e s c w (omega arith))
    ∙ ap some (notify-slept ticks k p s c w (omega arith))

-- A process that sleeps on `ticks` is made able to run by the timer tick after `sleepticks` more of
-- them, that is by `sleepticks` + 1 ticks.
pub woken_after :
    (ticks : ℕ) (ps : List Proc) (i : ℕ) (p : Proc)
    → get_elem? ps i ≡ some p
    → p.state ≡ State.sleeping
    → p.chan ≡ ticks
    → p.sleepticks < 2 ^ 32
    → get_elem? (ticks_on (suc p.sleepticks) ticks ps) i
      ≡ some (record p { state = State.runnable; sleepticks = 0 })
woken_after ticks ps i p e s c w =
    get-notify ticks (ticks_on p.sleepticks ticks ps) i (slept p.sleepticks p)
      (asleep_until ticks p.sleepticks ps i p e s c w (omega arith))
    ∙ ap some (
        tick-last ticks (slept p.sleepticks p) s c (omega arith)
        ∙ ap (λ t. record p { state = State.runnable; sleepticks = t }) (omega arith))
