-- ===== src/Sched/Nice.antt =====
-- `sys_nice` of p5/xv6-public/sysproc.c.
use cs537_group_projects.Base.{ℕ, ◌+◌, ◌-◌, ◌%◌, ◌^◌, ◌≡◌, ◌<◌, arith, ltb, if◌then◌else◌}
use cs537_group_projects.Sched.Table.{Proc, sys_nice}

-- The value of a nice in its range, as a distance from -20.
abbrev pub steps : ℕ → ℕ
steps v = (v + 20) % 2 ^ 32

-- `nice` leaves a value between -20 and 19, whatever its argument and the value before.
pub sys_nice_range : (inc : ℕ) (p : Proc) → steps (sys_nice inc p).nice < 40
unfolding sys_nice
sys_nice_range inc p = ground arith

-- From a value in range, `nice` with an argument from 0 to 2 ^ 31 - 21 adds it, and stops at 19.
pub sys_nice_up :
    (inc : ℕ) (p : Proc)
    → steps p.nice < 40
    → inc < 2 ^ 31 - 20
    → steps (sys_nice inc p).nice ≡ (if ltb (steps p.nice + inc) 39 then steps p.nice + inc else 39)
unfolding sys_nice
sys_nice_up inc p h k = ground arith

-- From a value in range, `nice` with an argument from -1 down to -2 ^ 31 + 21 subtracts it, and
-- stops at -20.
pub sys_nice_down :
    (d : ℕ) (p : Proc)
    → steps p.nice < 40
    → 0 < d
    → d < 2 ^ 31 - 20
    → steps (sys_nice (2 ^ 32 - d) p).nice ≡ steps p.nice - d
unfolding sys_nice
sys_nice_down d p h l k = ground arith
